-- ===== src/Util/Session.antt =====
-- Session persistence, from the two JSON annotations of an Ingress (pkg/util/util.go).
use mathlib.Core.Bool.{xor}
use oci_native_ingress_contr.Common.{
  String, ◌<>◌, ◌≡◌, ap, sym, ◌∙◌, Bool-cases, inl, inr, Bool, ◌||◌, ◌&&◌, is_some, arith, Option,
  none, some, if◌then◌else◌,
}
use oci_native_ingress_contr.Common.Text.{is_blank, trim_space}
use oci_native_ingress_contr.Exception.{Result, ok, err, plain, wrap, ◌>>=◌}
use oci_native_ingress_contr.Exception.Laws.{>>=-eq-ok, ok-injective, err_not_ok}
use oci_native_ingress_contr.Kube.{Ingress, AppCookie, LbCookie, CookieJson}
use oci_native_ingress_contr.Util.Annotation.{annotation}

abbrev pub lb_cookie_annotation : String
lb_cookie_annotation = "oci-native-ingress.oraclecloud.com/lb-cookie-session-persistence-config"

abbrev pub session_persistence_annotation : String
session_persistence_annotation = "oci-native-ingress.oraclecloud.com/session-persistence-config"

-- The annotation's text, unless it is absent or blank.
unfoldable pub present : String → Ingress → Option String
present name i = elim (annotation name i) [
  | none ↦ none
  | some raw ↦ if is_blank raw then none else some raw
]

-- `HasSessionPersistenceAnnotation`
unfoldable pub has_session_persistence_annotation : Ingress → Bool
unfolding present
has_session_persistence_annotation i =
    is_some (present lb_cookie_annotation i) || is_some (present session_persistence_annotation i)

abbrev unless_blank : Option String → Option String
unless_blank none = none
unless_blank (some name) = if is_blank name then none else some name

abbrev cookie_name_or_star : Option String → String
cookie_name_or_star none = "*"
cookie_name_or_star (some name) = if is_blank name then "*" else trim_space name

module _ (json : CookieJson) where
  -- `getLbCookieFromJSONOnly`; the flag "used" of the code is that a value or an error comes back.
  unfoldable pub get_lb_cookie_from_json_only : Ingress → Result (Option LbCookie)
  unfolding present
  get_lb_cookie_from_json_only i = elim (present lb_cookie_annotation i) [
    | none ↦ ok none
    | some raw ↦ do
      cfg ← wrap ("invalid JSON in " <> lb_cookie_annotation) (json.lb_cookie raw)
      ok (some (record cfg { cookie_name = unless_blank cfg.cookie_name }))
  ]

  -- `getSessionPersistenceFromJSONOnly`
  unfoldable pub get_session_persistence_from_json_only : Ingress → Result (Option AppCookie)
  unfolding present
  get_session_persistence_from_json_only i = elim (present session_persistence_annotation i) [
    | none ↦ ok none
    | some raw ↦ do
      cfg ← wrap ("invalid JSON in " <> session_persistence_annotation) (json.app_cookie raw)
      ok (
          some (record {
            cookie_name = some (cookie_name_or_star cfg.cookie_name);
            disable_fallback = none;
          }))
  ]

  -- `GetSessionPersistenceConfigs`
  unfoldable pub get_session_persistence_configs :
      Ingress → Result (Option AppCookie × Option LbCookie)
  unfolding get_lb_cookie_from_json_only get_session_persistence_from_json_only
  get_session_persistence_configs i = do
    app ← get_session_persistence_from_json_only i
    lb ← get_lb_cookie_from_json_only i
    if is_some app && is_some lb
        then err (
            plain (
              "both "
              <> (session_persistence_annotation
                  <> (" and "
                      <> (lb_cookie_annotation
                          <> " are set; exactly one session persistence annotation must be specified")))))
        else ok (app, lb)

  get_lb_cookie-Has :
      (i : Ingress) (lb : Option LbCookie)
      → get_lb_cookie_from_json_only i ≡ ok lb
      → is_some lb ≡ is_some (present lb_cookie_annotation i)
  unfolding get_lb_cookie_from_json_only
  get_lb_cookie-Has i lb h = ground arith

  get_session_persistence-Has :
      (i : Ingress) (app : Option AppCookie)
      → get_session_persistence_from_json_only i ≡ ok app
      → is_some app ≡ is_some (present session_persistence_annotation i)
  unfolding get_session_persistence_from_json_only
  get_session_persistence-Has i app h = ground arith

  -- Where the configuration of the cookies succeeds, HasSessionPersistenceAnnotation says that the Ingress has an
  -- annotation exactly if one kind of cookie is configured and not the other, which is the kind whose
  -- annotation is not blank.
  pub get_session_persistence_configs_exclusive :
      (i : Ingress) {app : Option AppCookie} {lb : Option LbCookie}
      → get_session_persistence_configs i ≡ ok (app, lb)
      → (has_session_persistence_annotation i ≡ xor (is_some app) (is_some lb))
        × (is_some app ≡ is_some (present session_persistence_annotation i))
        × (is_some lb ≡ is_some (present lb_cookie_annotation i))
  unfolding get_session_persistence_configs has_session_persistence_annotation xor
  get_session_persistence_configs_exclusive i {app} {lb} h =
      let (a, found_app, rest) = >>=-eq-ok (get_session_persistence_from_json_only i) _ h in
      let (l, found_lb, last) = >>=-eq-ok (get_lb_cookie_from_json_only i) _ rest in
      let has_app = get_session_persistence-Has i a found_app in
      let has_lb = get_lb_cookie-Has i l found_lb in
      elim (Bool-cases (is_some a && is_some l)) [
        | inl both ↦ err_not_ok _ (rw both at last)
        | inr apart ↦
            let same : (a, l) ≡ (app, lb) = ok-injective (rw apart at last) in
            let same_app : a ≡ app = ap (λ (x : Option AppCookie × Option LbCookie). x.0) same in
            let same_lb : l ≡ lb = ap (λ (x : Option AppCookie × Option LbCookie). x.1) same in
            (
              ground (arith, has_app, has_lb, same_app, same_lb),
              ap is_some (sym same_app) ∙ has_app,
              ap is_some (sym same_lb) ∙ has_lb,
            )
      ]
