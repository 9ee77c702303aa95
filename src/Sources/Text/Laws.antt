-- ===== src/Sources/Text/Laws.antt =====
-- What trimming and searching do to the length and the runes of a text.
use mcpyeahyouknowme.Prelude.{
  take, drop, keep-append, take-append-drop, sym, ◌++◌, ℕ, ◌≤◌, ◌<◌, ◌≡◌, refl, ap, ◌∙◌, ◌⊎◌, ◌&&◌,
  true, false, not, some, [], ◌∷◌, arith, nat_eq, length, keep, Bool-cases, Option-cases, inl, inr,
}
use mcpyeahyouknowme.Sources.Text.{
  Text, is_space, is_empty, trim_left, trim_right, trim_space, last_index,
}

length-trim_left : (t : Text) → length (trim_left t) ≤ length t
unfolding trim_left
length-trim_left [] = ground arith
length-trim_left (r ∷ t) = ground (arith, length-trim_left t)

length-trim_right : (t : Text) → length (trim_right t) ≤ length t
unfolding trim_right
length-trim_right [] = ground arith
length-trim_right (r ∷ t) = ground (arith, length-trim_right t)

pub length-trim_space : (t : Text) → length (trim_space t) ≤ length t
unfolding trim_space
length-trim_space t = omega (arith, length-trim_right (trim_left t), length-trim_left t)

-- A leading space is trimmed.
pub length-trim_space_first :
    (r : ℕ) (t : Text) → is_space r ≡ true → length (trim_space (r ∷ t)) ≤ length t
unfolding trim_space trim_left
length-trim_space_first r t h = ground (arith, length-trim_right (trim_left t), length-trim_left t)

-- What is left of a text without its white space.
abbrev pub ink : Text → Text
ink t = keep (λ r. not (is_space r)) t

ink-trim_left : (t : Text) → ink (trim_left t) ≡ ink t
unfolding trim_left
ink-trim_left [] = refl
ink-trim_left (r ∷ t) = ground (arith, ink-trim_left t)

empty_lem : (t : Text) → is_empty t ≡ true → t ≡ []
empty_lem [] h = refl
empty_lem (r ∷ t) h = ground arith

ink-trim_right : (t : Text) → ink (trim_right t) ≡ ink t
unfolding trim_right
ink-trim_right [] = refl
ink-trim_right (r ∷ t) = elim (Bool-cases (is_empty (trim_right t))) [
  | inl e ↦
      ground
        (arith, ink-trim_right t, empty_lem (trim_right t) e, ap ink (empty_lem (trim_right t) e))
  | inr e ↦ ground (arith, ink-trim_right t)
]

pub ink-trim_space : (t : Text) → ink (trim_space t) ≡ ink t
unfolding trim_space
ink-trim_space t = ink-trim_right (trim_left t) ∙ ink-trim_left t

pub last_index-bound : (c i : ℕ) (t : Text) → last_index c t ≡ some i → i < length t
unfolding last_index
last_index-bound c i [] h = ground arith
last_index-bound c i (r ∷ t) h = elim (Option-cases (last_index c t)) [
  | inl e ↦ ground arith
  | inr (j, e) ↦ ground (arith, last_index-bound c j t e)
]

-- The rune at the place that was found.
pub last_index-zero : (c r : ℕ) (t : Text) → last_index c (r ∷ t) ≡ some 0 → r ≡ c
unfolding last_index
last_index-zero c r t h = ground arith

-- A piece in front of the rest, both trimmed.
pub ink-pieces :
    (n : ℕ) (t rest : Text)
    → ink rest ≡ ink (trim_space (drop n t))
    → ink (trim_space (take n t) ++ rest) ≡ ink t
ink-pieces n t rest same =
    keep-append (λ r. not (is_space r)) (trim_space (take n t)) rest
    ∙ ap (λ x. x ++ ink rest) (ink-trim_space (take n t))
    ∙ ap (λ x. ink (take n t) ++ x) (same ∙ ink-trim_space (drop n t))
    ∙ sym (keep-append (λ r. not (is_space r)) (take n t) (drop n t))
    ∙ ap ink (take-append-drop n t)

trim_right_kept :
    (r : ℕ) (rest : Text)
    → trim_right rest ≡ rest
    → (is_empty rest && is_space r) ≡ false
    → trim_right (r ∷ rest) ≡ r ∷ rest
unfolding trim_right
trim_right_kept r rest e f = rw e (rw f refl)

trim_nothing : trim_right (trim_left (trim_right [])) ≡ trim_right []
unfolding trim_right trim_left
trim_nothing = refl

trim_right_idem : (t : Text) → trim_right (trim_right t) ≡ trim_right t
unfolding trim_right
trim_right_idem [] = refl
trim_right_idem (r ∷ t) = elim (Bool-cases (is_empty (trim_right t) && is_space r)) [
  | inl e ↦ rw e refl
  | inr f ↦ rw f (trim_right_kept r (trim_right t) (trim_right_idem t) f)
]

trim_left-cases :
    (t : Text)
    → (trim_left t ≡ []) ⊎ ((r : ℕ) × (u : Text) × (trim_left t ≡ r ∷ u) × (is_space r ≡ false))
unfolding trim_left
trim_left-cases [] = inl refl
trim_left-cases (r ∷ t) = elim (Bool-cases (is_space r)) [
  | inl e ↦ rw e (trim_left-cases t)
  | inr f ↦ inr (r, t, rw f refl, f)
]

trim_left-ink : (r : ℕ) (t : Text) → is_space r ≡ false → trim_left (r ∷ t) ≡ r ∷ t
unfolding trim_left
trim_left-ink r t h = rw h refl

trim_right-ink : (r : ℕ) (t : Text) → is_space r ≡ false → trim_right (r ∷ t) ≡ r ∷ trim_right t
unfolding trim_right
trim_right-ink r t h = ground (arith, h)

-- A trimmed text is trimmed already.
pub trim_space_idem : (t : Text) → trim_space (trim_space t) ≡ trim_space t
unfolding trim_space
trim_space_idem t = elim (trim_left-cases t) [
  | inl e ↦ rw e trim_nothing
  | inr (r, u, e, h) ↦ rw e (
      ap (λ x. trim_right (trim_left x)) (trim_right-ink r u h)
      ∙ (ap trim_right (trim_left-ink r (trim_right u) h)
          ∙ (ap trim_right (sym (trim_right-ink r u h)) ∙ trim_right_idem (r ∷ u))))
]
