-- ===== src/Common/Equality.antt =====
-- Go's `==` on the comparable types: decidable equality as an instance.
use Prim.Native.Nat.{ℕ}
use Prim.Native.String.{String}
use mathlib.Core.Path.{◌≡◌}
use mathlib.Core.Logic.{ite, dite}
use mathlib.Core.Bool.{Bool, true, false, Bool-discrete}
use mathlib.Core.Option.{Option}
use native.Mathlib.Decide.{ℕ_discrete}
use native.Mathlib.Omega.{arith}
use text.Mathlib.Text
use text.Mathlib.TextEquality.{eq_iff}

pub record Eq {ℓ} (A : Type ℓ) : Type ℓ where
  pub dec : Discrete A

module _ {ℓ} {A : Type ℓ} ⦃e : Eq A⦄ where
  infix 50 ◌==◌
  abbrev pub ◌==◌ : A → A → Bool
  a == b = ite (e.dec a b) true false

  pub ==_refl : (a : A) → (a == a) ≡ true
  ==_refl a = ground arith

  pub eq_of_== : (a b : A) → (a == b) ≡ true → a ≡ b
  eq_of_== a b h = ground arith

-- Shut in proofs, where a split on `s == t` yields the equation or its negation.
unfoldable pub string_discrete : Discrete String
string_discrete s t =
    dite (Bool-discrete (Text.◌==◌ s t) true) (λ same. yes ((eq_iff s t).0 same))
      (λ differ. no (λ p. differ ((eq_iff s t).1 p)))

instance unfoldable pub string_eq : Eq String
unfolding string_discrete
string_eq = record { dec = string_discrete }

instance unfoldable pub nat_eq : Eq ℕ
nat_eq = record { dec = ℕ_discrete }

unfoldable pub option_string_discrete : Discrete (Option String)
option_string_discrete = hlevel string_discrete

instance unfoldable pub option_string_eq : Eq (Option String)
unfolding option_string_discrete
option_string_eq = record { dec = option_string_discrete }
