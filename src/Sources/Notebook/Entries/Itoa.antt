-- ===== src/Sources/Notebook/Entries/Itoa.antt =====
-- itoa of src/sources/notebook/source.go, on numbers that are not negative.
use mcpyeahyouknowme.Prelude.{
  ℕ, zero, suc, ◌+◌, ◌-◌, ◌*◌, ◌/◌, ◌%◌, ◌≤◌, ◌≡◌, ◌∙◌, ap, true, [], ◌∷◌, if◌then◌else◌, nat_eq,
  arith, leb, Bool-cases, inl, inr,
}
use mcpyeahyouknowme.Sources.Text.{Text, codes}

-- The loop that fills the buffer from its end; n halves at least in each round.
unfoldable pub digits : ℕ → ℕ → Text → Text
digits zero n buf = buf
digits (suc fuel) n buf =
    let more = digits fuel (n / 10) ((48 + n % 10) ∷ buf) in if leb n 0 then buf else more

unfoldable pub itoa : ℕ → Text
unfolding digits
itoa n = if leb n 0 then codes "0" else digits n n []

-- The number that a text of digits denotes, read after `acc`.
unfoldable pub value : ℕ → Text → ℕ
value acc [] = acc
value acc (d ∷ t) = value (acc * 10 + (d - 48)) t

value-digits : (fuel n : ℕ) (buf : Text) → n ≤ fuel → value 0 (digits fuel n buf) ≡ value n buf
unfolding digits value
value-digits zero n buf h = ap (λ m. value m buf) (omega arith)
value-digits (suc fuel) n buf h = elim (Bool-cases (leb n 0)) [
  | inl e ↦ ground (arith, ap (λ m. value m buf) (zero_lem n e))
  | inr e ↦ rw e (
      value-digits fuel (n / 10) ((48 + n % 10) ∷ buf) (omega (arith, h))
      ∙ ap (λ m. value m buf) (last_digit n))
]
  where
    zero_lem : (n : ℕ) → leb n 0 ≡ true → 0 ≡ n
    zero_lem n e = ground arith

    last_digit : (n : ℕ) → n / 10 * 10 + (48 + n % 10 - 48) ≡ n
    last_digit n = omega arith

-- The digits of a number denote it.
pub value-itoa : (n : ℕ) → value 0 (itoa n) ≡ n
unfolding itoa value
value-itoa n = elim (Bool-cases (leb n 0)) [
  | inl e ↦ ground arith
  | inr e ↦ rw e (value-digits n n [] (omega arith))
]
