-- ===== src/TlsPolicy/Event.antt =====
-- The reason of the warning event for an error (pkg/tlspolicy/tls_policy.go).
use oci_native_ingress_contr.Common.{String, Option, none, some, if◌then◌else◌}
use oci_native_ingress_contr.Common.Text.{contains}
use oci_native_ingress_contr.Exception.{Error, message}

abbrev pub invalid_annotation_reason : String
invalid_annotation_reason = "TLSPolicyInvalidAnnotation"

abbrev pub conflict_reason : String
conflict_reason = "TLSPolicyConflict"

-- `ClassifyWarningEventReason`
unfoldable pub classify_warning_event_reason : Option Error → String → String
unfolding message
classify_warning_event_reason none fallback = fallback
classify_warning_event_reason (some e) fallback =
    if contains (message e) "TLSPolicyInvalidAnnotation:"
    then invalid_annotation_reason
    else if contains (message e) "TLSPolicyConflict:"
    then conflict_reason
    else fallback
