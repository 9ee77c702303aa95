-- ===== src/Sources/Whatsapp/Fuzzy/Laws.antt =====
-- The dynamic programme of sequenceMatcherRatio finds the length of a longest common subsequence.
use mathlib.Core.List.{append-nil}
use mathlib.Core.Path.{subst}
use mcpyeahyouknowme.Prelude.{
  ℕ, ◌+◌, ◌*◌, ◌≤◌, ◌≡◌, inl, inr, refl, ◌∙◌, List, [], ◌∷◌, ◌++◌, nat_eq, length, arith,
}
use mcpyeahyouknowme.Sources.Text.{Text}
use mcpyeahyouknowme.Sources.Whatsapp.Fuzzy.{
  cell, fill_row, zeros, rows, last_cell, lcs_length, sequence_matcher_ratio,
}
use mcpyeahyouknowme.Sources.Whatsapp.Fuzzy.Subsequences.{
  IsSub, IsLcs, IsSub-skip, IsLcs-left, IsLcs-above, cell-IsLcs,
}

-- A row holds the lengths for a reversed prefix `a` and for all prefixes that end in `todo`, of which
-- `b` is the part before, reversed.
IsRow : Text → Text → Text → List ℕ → Type 0
IsRow a b [] [] = Unit
IsRow a b [] (c ∷ row) = ⊥
IsRow a b (y ∷ todo) [] = ⊥
IsRow a b (y ∷ todo) (c ∷ row) = IsLcs a (y ∷ b) c × IsRow a (y ∷ b) todo row

fill_row-IsRow :
    (x : ℕ) (a b todo : Text) (diag : ℕ) (prev : List ℕ) (left : ℕ)
    → IsLcs a b diag
    → IsLcs (x ∷ a) b left
    → IsRow a b todo prev
    → IsRow (x ∷ a) b todo (fill_row x todo diag prev left)
unfolding IsRow fill_row
fill_row-IsRow x a b [] diag prev left d l p = tt
fill_row-IsRow x a b (y ∷ todo) diag [] left d l p = absurd p
fill_row-IsRow x a b (y ∷ todo) diag (up ∷ prev) left d l (u, p) =
    let here : IsLcs (x ∷ a) (y ∷ b) (cell x y diag up left) =
      cell-IsLcs x y a b diag up left d u l in
    (here, fill_row-IsRow x a (y ∷ b) todo up prev (cell x y diag up left) u here p)

zeros-IsRow : (b todo : Text) → IsRow [] b todo (zeros todo)
unfolding IsRow
zeros-IsRow b [] = tt
zeros-IsRow b (y ∷ todo) = (IsLcs-left (y ∷ b), zeros-IsRow (y ∷ b) todo)

abbrev pub rev_onto : Text → Text → Text
rev_onto done [] = done
rev_onto done (x ∷ t) = rev_onto (x ∷ done) t

rows-IsRow :
    (done a b : Text) (prev : List ℕ)
    → IsRow done [] b prev
    → IsRow (rev_onto done a) [] b (rows a b prev)
unfolding rows
rows-IsRow done [] b prev p = p
rows-IsRow done (x ∷ a) b prev p =
    rows-IsRow (x ∷ done) a b (fill_row x b 0 prev 0)
      (fill_row-IsRow x done [] b 0 prev 0 (IsLcs-above done) (IsLcs-above (x ∷ done)) p)

last_cell-IsLcs :
    (a b todo : Text) (c : ℕ) (row : List ℕ)
    → IsLcs a b c
    → IsRow a b todo row
    → IsLcs a (rev_onto b todo) (last_cell c row)
unfolding IsRow
last_cell-IsLcs a b [] c [] l _ = l
last_cell-IsLcs a b [] c (d ∷ row) l p = absurd p
last_cell-IsLcs a b (y ∷ todo) c [] l p = absurd p
last_cell-IsLcs a b (y ∷ todo) c (d ∷ row) l (p, ps) = last_cell-IsLcs a (y ∷ b) todo d row p ps

reversed : (a b : Text) → IsLcs (rev_onto [] a) (rev_onto [] b) (lcs_length a b)
unfolding lcs_length
reversed a b =
    last_cell-IsLcs (rev_onto [] a) [] b 0 (rows a b (zeros b)) (IsLcs-above (rev_onto [] a))
      (rows-IsRow [] a b (zeros b) (zeros-IsRow [] b))

rev_onto-IsSub : (s t u v : Text) → IsSub s t → IsSub u v → IsSub (rev_onto u s) (rev_onto v t)
rev_onto-IsSub [] [] u v _ k = k
rev_onto-IsSub [] (y ∷ t) u v _ k = rev_onto-IsSub [] t u (y ∷ v) tt (IsSub-skip u v y k)
rev_onto-IsSub (x ∷ s) [] u v h k = absurd h
rev_onto-IsSub (x ∷ s) (y ∷ t) u v (inl h) k =
    rev_onto-IsSub s t (x ∷ u) (y ∷ v) (h.1) (inl (h.0, k))
rev_onto-IsSub (x ∷ s) (y ∷ t) u v (inr h) k =
    rev_onto-IsSub (x ∷ s) t u (y ∷ v) h (IsSub-skip u v y k)

rev_onto-rev_onto : (t v w : Text) → rev_onto w (rev_onto v t) ≡ rev_onto (t ++ w) v
rev_onto-rev_onto [] v w = refl
rev_onto-rev_onto (x ∷ t) v w = rev_onto-rev_onto t (x ∷ v) w

rev-rev : (t : Text) → rev_onto [] (rev_onto [] t) ≡ t
rev-rev t = rev_onto-rev_onto t [] [] ∙ append-nil t

length-rev_onto : (t v : Text) → length (rev_onto v t) ≡ length t + length v
length-rev_onto [] v = omega arith
length-rev_onto (x ∷ t) v = omega (arith, length-rev_onto t (x ∷ v))

rev-IsSub : (s t : Text) → IsSub s (rev_onto [] t) → IsSub (rev_onto [] s) t
rev-IsSub s t h =
    subst (IsSub (rev_onto [] s)) (rev-rev t) (rev_onto-IsSub s (rev_onto [] t) [] [] h tt)

unreversed : (a b : Text) (n : ℕ) → IsLcs (rev_onto [] a) (rev_onto [] b) n → IsLcs a b n
unreversed a b n ((s, sa, sb, len), longest) = (
  (rev_onto [] s, rev-IsSub s a sa, rev-IsSub s b sb, omega (arith, length-rev_onto s [], len)),
  λ t ta tb. omega (
    arith,
    longest (rev_onto [] t) (rev_onto-IsSub t a [] [] ta tt) (rev_onto-IsSub t b [] [] tb tt),
    length-rev_onto t [],
  ),
)

-- The number that the dynamic programme of sequence_matcher_ratio leaves in its last cell is the length of
-- a common subsequence of the two texts, and no common subsequence is longer.
pub lcs_length-IsLcs : (a b : Text) → IsLcs a b (lcs_length a b)
lcs_length-IsLcs a b = unreversed a b (lcs_length a b) (reversed a b)

IsSub-length : (s t : Text) → IsSub s t → length s ≤ length t
IsSub-length [] t h = omega arith
IsSub-length (x ∷ s) [] h = absurd h
IsSub-length (x ∷ s) (y ∷ t) (inl h) = omega (arith, IsSub-length s t (h.1))
IsSub-length (x ∷ s) (y ∷ t) (inr h) = omega (arith, IsSub-length (x ∷ s) t h)

twice_bound : (a b : Text) → 2 * lcs_length a b ≤ length a + length b
twice_bound a b =
    let ((s, sa, sb, len), longest) = lcs_length-IsLcs a b in
    omega (arith, IsSub-length s a sa, IsSub-length s b sb, len)

-- The denominator of a ratio is positive, and the numerator is at most the denominator.
pub sequence_matcher_ratio-bounds :
    (a b : Text)
    → (1 ≤ (sequence_matcher_ratio a b).1)
      × ((sequence_matcher_ratio a b).0 ≤ (sequence_matcher_ratio a b).1)
unfolding sequence_matcher_ratio
sequence_matcher_ratio-bounds [] [] = (omega arith, omega arith)
sequence_matcher_ratio-bounds [] (y ∷ b) = (omega arith, omega arith)
sequence_matcher_ratio-bounds (x ∷ a) [] = (omega arith, omega arith)
sequence_matcher_ratio-bounds (x ∷ a) (y ∷ b) = (omega arith, twice_bound (x ∷ a) (y ∷ b))
