-- ===== src/Prelude/Equality.antt =====
-- Go's `==` on comparable types: an instance gives a decision, and `a == b` is its Boolean.
use Prim.Native.Nat.{ℕ}
use Prim.Native.String.{String}
use mathlib.Core.Path.{◌≡◌}
use mathlib.Core.Logic.{ite, dite}
use mathlib.Core.Bool.{Bool, true, false, ◌||◌, Bool-discrete}
use mathlib.Core.List.{List, [], ◌∷◌}
use native.Mathlib.Decide.{ℕ_discrete}
use native.Mathlib.Omega.{arith}
use text.Mathlib.Text
use text.Mathlib.TextEquality.{eq_iff}

pub record Eq {ℓ} (A : Type ℓ) : Type ℓ where
  pub dec : Discrete A

module _ {ℓ} {A : Type ℓ} ⦃e : Eq A⦄ where
  infix 50 ◌==◌
  abbrev pub ◌==◌ : A → A → Bool
  a == b = ite (e.dec a b) true false

  -- slices.Contains
  abbrev pub contains : List A → A → Bool
  contains [] a = false
  contains (x ∷ xs) a = x == a || contains xs a

  pub eq_refl : (a : A) → (a == a) ≡ true
  eq_refl a = ground arith

  pub eq_true : (a b : A) → (a == b) ≡ true → a ≡ b
  eq_true a b h = ground arith

  pub eq_sym : (a b : A) → (a == b) ≡ (b == a)
  eq_sym a b = ground arith

-- Two tests that stand or fall together.
pub eq-eq :
    {A B : Type 0} ⦃a : Eq A⦄ ⦃b : Eq B⦄ (x y : A) (u v : B)
    → (x ≡ y → u ≡ v)
    → (u ≡ v → x ≡ y)
    → (x == y) ≡ (u == v)
eq-eq ⦃a⦄ ⦃b⦄ x y u v f g = elim (a.dec x y) [
  | yes p ↦ ground (arith, f p)
  | no n ↦ elim (b.dec u v) [ yes q ↦ absurd (n (g q)) | no m ↦ ground arith ]
]

-- Both are shut in proofs, where a split on `s == t` yields the equation or its negation.
instance unfoldable pub nat_eq : Eq ℕ
unfolding ℕ_discrete
nat_eq = record { dec = ℕ_discrete }

instance unfoldable pub string_eq : Eq String
string_eq = record {
  dec = λ s t.
      dite (Bool-discrete (Text.◌==◌ s t) true) (λ same. yes ((eq_iff s t).0 same))
        (λ differ. no (λ p. differ ((eq_iff s t).1 p)));
}
