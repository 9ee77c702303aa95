-- ===== src/Sources/Whatsapp/Fuzzy/Subsequences.antt =====
-- Longest common subsequences, and how one cell of the table extends them.
use mcpyeahyouknowme.Prelude.{
  ℕ, suc, ◌≤◌, ◌≡◌, ◌≢◌, ◌⊎◌, inl, inr, refl, sym, ap, ◌∙◌, true, false, Bool-cases, [], ◌∷◌, ◌==◌,
  nat_eq, eq_true, eq_refl, ltb, length, arith,
}
use mcpyeahyouknowme.Sources.Text.{Text}
use mcpyeahyouknowme.Sources.Whatsapp.Fuzzy.{cell}

-- `s` is left of `t` when some runes are crossed out.
abbrev pub IsSub : Text → Text → Type 0
IsSub [] t = Unit
IsSub (x ∷ s) [] = ⊥
IsSub (x ∷ s) (y ∷ t) = ((x ≡ y) × IsSub s t) ⊎ IsSub (x ∷ s) t

-- `n` is the length of a common subsequence of `a` and `b`, and none is longer.
abbrev pub IsLcs : Text → Text → ℕ → Type 0
IsLcs a b n =
    ((s : Text) × IsSub s a × IsSub s b × (length s ≡ n))
    × ((s : Text) → IsSub s a → IsSub s b → length s ≤ n)

pub IsSub-skip : (s t : Text) (y : ℕ) → IsSub s t → IsSub s (y ∷ t)
IsSub-skip [] t y _ = tt
IsSub-skip (x ∷ s) t y h = inr h

IsSub-tail : (x : ℕ) (s t : Text) → IsSub (x ∷ s) t → IsSub s t
IsSub-tail x s [] h = absurd h
IsSub-tail x s (y ∷ t) (inl h) = IsSub-skip s t y (h.1)
IsSub-tail x s (y ∷ t) (inr h) = IsSub-skip s t y (IsSub-tail x s t h)

-- Without its first rune a subsequence is one of the text without its first.
IsSub-rest : (x y : ℕ) (s t : Text) → IsSub (x ∷ s) (y ∷ t) → IsSub s t
IsSub-rest x y s t (inl h) = h.1
IsSub-rest x y s t (inr h) = IsSub-tail x s t h

only_empty : (b s : Text) → IsSub s [] → IsSub s b → length s ≤ 0
only_empty b [] h k = omega arith
only_empty b (x ∷ s) h k = absurd h

pub IsLcs-left : (b : Text) → IsLcs [] b 0
IsLcs-left b = (([], tt, tt, refl), only_empty b)

pub IsLcs-above : (a : Text) → IsLcs a [] 0
IsLcs-above a = (([], tt, tt, refl), λ s h k. only_empty a s k h)

eq_false : (x y : ℕ) → (x == y) ≡ false → x ≢ y
eq_false x y h e = ground (arith, eq_refl y)

cell-same : (x y diag up left : ℕ) → (x == y) ≡ true → cell x y diag up left ≡ suc diag
unfolding cell
cell-same x y diag up left e = ground arith

cell-above :
    (x y diag up left : ℕ) → (x == y) ≡ false → ltb left up ≡ true → cell x y diag up left ≡ up
unfolding cell
cell-above x y diag up left e l = ground arith

cell-left :
    (x y diag up left : ℕ) → (x == y) ≡ false → ltb left up ≡ false → cell x y diag up left ≡ left
unfolding cell
cell-left x y diag up left e l = ground arith

same_bound :
    (x y : ℕ) (a b : Text) (n : ℕ)
    → ((s : Text) → IsSub s a → IsSub s b → length s ≤ n)
    → (t : Text) → IsSub t (x ∷ a)
    → IsSub t (y ∷ b)
    → length t ≤ suc n
same_bound x y a b n longest [] h k = omega arith
same_bound x y a b n longest (z ∷ t) h k =
    omega (arith, longest t (IsSub-rest z x t a h) (IsSub-rest z y t b k))

-- A common subsequence of two texts that start with the same rune.
IsLcs-same : (x y : ℕ) (a b : Text) (n : ℕ) → x ≡ y → IsLcs a b n → IsLcs (x ∷ a) (y ∷ b) (suc n)
IsLcs-same x y a b n e ((s, sa, sb, len), longest) =
    ((x ∷ s, inl (refl, sa), inl (e, sb), ap suc len), same_bound x y a b n longest)

-- A common subsequence of two texts that start with different runes leaves one of the two out.
lcs_differ :
    (x y : ℕ) (a b t : Text)
    → x ≢ y
    → IsSub t (x ∷ a)
    → IsSub t (y ∷ b)
    → (IsSub t a × IsSub t (y ∷ b)) ⊎ (IsSub t (x ∷ a) × IsSub t b)
lcs_differ x y a b [] d h k = inl (tt, k)
lcs_differ x y a b (z ∷ t) d (inr h) k = inl (h, k)
lcs_differ x y a b (z ∷ t) d (inl h) (inr k) = inr (inl h, k)
lcs_differ x y a b (z ∷ t) d (inl h) (inl k) = absurd (d (sym (h.0) ∙ k.0))

-- The longer of the two, where the first runes differ.
differ_bound :
    (x y : ℕ) (a b : Text) (up left n : ℕ)
    → x ≢ y
    → up ≤ n
    → left ≤ n
    → IsLcs a (y ∷ b) up
    → IsLcs (x ∷ a) b left
    → (t : Text) → IsSub t (x ∷ a)
    → IsSub t (y ∷ b)
    → length t ≤ n
differ_bound x y a b up left n d u l (_, upper) (_, lower) t h k =
    elim (lcs_differ x y a b t d h k) [
      | inl (ha, kb) ↦ omega (arith, upper t ha kb)
      | inr (ha, kb) ↦ omega (arith, lower t ha kb)
    ]

IsLcs-longer_above :
    (x y : ℕ) (a b : Text) (up left : ℕ)
    → x ≢ y
    → left ≤ up
    → IsLcs a (y ∷ b) up
    → IsLcs (x ∷ a) b left
    → IsLcs (x ∷ a) (y ∷ b) up
IsLcs-longer_above x y a b up left d l ((s, sa, sb, len), upper) lower = (
  (s, IsSub-skip s a x sa, sb, len),
  differ_bound x y a b up left up d (omega arith) l ((s, sa, sb, len), upper) lower,
)

IsLcs-longer_left :
    (x y : ℕ) (a b : Text) (up left : ℕ)
    → x ≢ y
    → up ≤ left
    → IsLcs a (y ∷ b) up
    → IsLcs (x ∷ a) b left
    → IsLcs (x ∷ a) (y ∷ b) left
IsLcs-longer_left x y a b up left d l upper ((s, sa, sb, len), lower) = (
  (s, sa, IsSub-skip s b y sb, len),
  differ_bound x y a b up left left d l (omega arith) upper ((s, sa, sb, len), lower),
)

pub cell-IsLcs :
    (x y : ℕ) (a b : Text) (diag up left : ℕ)
    → IsLcs a b diag
    → IsLcs a (y ∷ b) up
    → IsLcs (x ∷ a) b left
    → IsLcs (x ∷ a) (y ∷ b) (cell x y diag up left)
cell-IsLcs x y a b diag up left d u l = elim (Bool-cases (x == y)) [
  | inl e ↦ rw (cell-same x y diag up left e) (IsLcs-same x y a b diag (eq_true x y e) d)
  | inr e ↦ elim (Bool-cases (ltb left up)) [
    | inl f ↦
        rw (cell-above x y diag up left e f)
          (IsLcs-longer_above x y a b up left (eq_false x y e) (ground arith) u l)
    | inr f ↦
        rw (cell-left x y diag up left e f)
          (IsLcs-longer_left x y a b up left (eq_false x y e) (ground arith) u l)
  ]
]
