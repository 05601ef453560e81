-- ===== src/Exception/Laws.antt =====
-- The chains of HasTransientError (pkg/exception/util.go), and results that succeed.
use mathlib.Core.List.{foldr}
use oci_native_ingress_contr.Common.{
  String, ◌≡◌, refl, ◌↔◌, ◌⊎◌, inl, inr, Bool, true, false, List, [], ◌∷◌,
}
use oci_native_ingress_contr.Exception.{
  Error, plain, wrapped, transient, service, num_error, multi_certificate, Result, ok, err, ◌>>=◌,
  ◌>>◌, wrap, guard, has_transient_error,
}

-- A wrap with a message, or one that puts its own text in place of the cause's.
pub data Layer : Type 0 where
  prefix : String → Layer
  disguise : Layer

abbrev put : Layer → Error → Error
put (prefix m) e = wrapped m e
put disguise e = multi_certificate e

-- Several wraps, the outermost first.
abbrev pub wrap_all : List Layer → Error → Error
wrap_all layers e = foldr put e layers

find_transient :
    (e : Error)
    → has_transient_error e ≡ true
    → (layers : List Layer) × (cause : Error) × (e ≡ wrap_all layers (transient cause))
unfolding has_transient_error
find_transient (plain m) h = cc
find_transient (wrapped m e) h =
    let (ms, cause, p) = find_transient e h in (prefix m ∷ ms, cause, cc)
find_transient (transient e) h = ([], e, refl)
find_transient (service s c) h = cc
find_transient (num_error t) h = cc
find_transient (multi_certificate e) h =
    let (ms, cause, p) = find_transient e h in (disguise ∷ ms, cause, cc)

has_transient-wrap_all :
    (layers : List Layer) (cause : Error)
    → has_transient_error (wrap_all layers (transient cause)) ≡ true
unfolding has_transient_error
has_transient-wrap_all [] cause = refl
has_transient-wrap_all (prefix m ∷ ms) cause = has_transient-wrap_all ms cause
has_transient-wrap_all (disguise ∷ ms) cause = has_transient-wrap_all ms cause

-- An error counts as transient exactly if it is a `TransientError` under any number of wraps.
pub has_transient_error_iff :
    (e : Error)
    → (has_transient_error e ≡ true)
      ↔ ((layers : List Layer) × (cause : Error) × (e ≡ wrap_all layers (transient cause)))
has_transient_error_iff e =
    (find_transient e, λ (ms, cause, p). rw p (has_transient-wrap_all ms cause))

-- Where a bind succeeds, so does its first part, and the rest does on its value.
pub >>=-eq-ok {ℓ κ} :
    {A : Type ℓ} {B : Type κ} (first : Result A) (rest : A → Result B) {b : B}
    → (first >>= rest) ≡ ok b
    → (a : A) × (first ≡ ok a) × (rest a ≡ ok b)
>>=-eq-ok (err e) rest h = cc
>>=-eq-ok (ok a) rest h = (a, refl, h)

pub ok-injective {ℓ} : {A : Type ℓ} {a b : A} → ok a ≡ ok b → a ≡ b
ok-injective h = cc

pub guard-eq-ok {ℓ} :
    {A : Type ℓ} (b : Bool) (e : Error) (k : Result A) {a : A}
    → (guard b e >> k) ≡ ok a
    → (b ≡ true) × (k ≡ ok a)
guard-eq-ok true e k h = (refl, h)
guard-eq-ok false e k h = cc

pub wrap-eq-ok {ℓ} : {A : Type ℓ} (m : String) (r : Result A) {a : A} → wrap m r ≡ ok a → r ≡ ok a
wrap-eq-ok m (ok a) h = h
wrap-eq-ok m (err e) h = cc

pub Result-cases {ℓ} :
    {A : Type ℓ} (r : Result A) → ((e : Error) × (r ≡ err e)) ⊎ ((a : A) × (r ≡ ok a))
Result-cases (ok a) = inr (a, refl)
Result-cases (err e) = inl (e, refl)

-- A failure is no success, for any conclusion.
pub err_not_ok {ℓ κ} : {A : Type ℓ} {C : Type κ} (e : Error) {a : A} → err e ≡ ok a → C
err_not_ok e h = cc
