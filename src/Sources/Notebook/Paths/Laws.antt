-- ===== src/Sources/Notebook/Paths/Laws.antt =====
-- What isInsideDir decides: whether the elements of a path start with those of the directory.
use mcpyeahyouknowme.Prelude.{
  ◌≤◌, ◌≡◌, ◌⊎◌, inl, inr, refl, sym, ap, ◌∙◌, Bool, true, false, ◌||◌, List, [], ◌∷◌, ◌++◌, arith,
  ◌==◌, nat_eq, contains, eq_refl, eq_true, length, length-append, Bool-cases, All,
}
use mathlib.Core.List.{append_assoc, append-nil}
use mcpyeahyouknowme.Sources.Text.{Text, text_eq, has_prefix, is_empty}
use mcpyeahyouknowme.Sources.Notebook.Paths.{
  separator, split_path, abs_names, rooted, render, abs, is_inside_dir, is_path_in_configured_dirs,
}
use mcpyeahyouknowme.Sources.Notebook.Paths.Elements.{
  IsName, split_path-at, split_path-on, split_path-end, split_path-append, abs_names-IsName,
  cons-inj, has_prefix-rest, has_prefix-append, split_path-render, split_path-root,
}

-- The elements of the path `path` start with those of the directory `dir`.
abbrev pub IsUnder : Text → Text → Text → Type 0
IsUnder cwd dir path = (rest : List Text) × (abs_names cwd dir ++ rest ≡ abs_names cwd path)

cut_here : (n a b c : Text) → n ++ ((a ++ b) ++ c) ≡ ((n ++ a) ++ b) ++ c
cut_here n a b c = sym (ap (λ t. t ++ c) (append_assoc n a b) ∙ append_assoc n (a ++ b) c)

abbrev first_empty : List Text → Bool
first_empty [] = true
first_empty (n ∷ names) = is_empty n

split_path-some : (name t : Text) → 1 ≤ length (split_path name t)
split_path-some name [] = rw (split_path-end name) (omega arith)
split_path-some name (r ∷ t) = elim (Bool-cases (r == separator)) [
  | inl e ↦ rw (split_path-at name r t e) (omega arith)
  | inr e ↦ rw (split_path-on name r t e) (split_path-some (name ++ (r ∷ [])) t)
]

too_short :
    (dir rest : List Text)
    → [] ∷ (dir ++ rest) ≡ [] ∷ [] ∷ []
    → 1 ≤ length dir
    → 1 ≤ length rest
    → ⊥
too_short dir rest e d r = omega (arith, ap length e, length-append dir rest)

not_root : (dir : List Text) → All IsName dir → 1 ≤ length dir → dir ≡ [] ∷ [] → ⊥
not_root [] _ h e = omega arith
not_root (n ∷ dir) (p, ps) h e = ground (arith, p, ap first_empty e)

or_true : (a b : Bool) → (a || b) ≡ true → (a ≡ true) ⊎ (b ≡ true)
or_true true b h = inl refl
or_true false b h = inr h

or_true_left : (a b : Bool) → a ≡ true → (a || b) ≡ true
or_true_left a b h = ground arith

or_true_right : (a b : Bool) → b ≡ true → (a || b) ≡ true
or_true_right a b h = ground arith

rooted-append :
    (dir : List Text) (r : Text) (rest : List Text)
    → rooted (dir ++ (r ∷ rest)) ≡ (rooted dir ++ (separator ∷ [])) ++ (r ++ rooted rest)
unfolding rooted
rooted-append [] r rest = refl
rooted-append (n ∷ dir) r rest =
    ap (λ t. separator ∷ (n ++ t)) (rooted-append dir r rest)
    ∙ ap (λ t. separator ∷ t) (cut_here n (rooted dir) (separator ∷ []) (r ++ rooted rest))

-- The elements of a text that has a directory in front and a separator behind it.
prefix_split :
    (dir : List Text) (text : Text)
    → All IsName dir
    → 1 ≤ length dir
    → has_prefix text (render dir ++ (separator ∷ [])) ≡ true
    → (rest : List Text) × (split_path [] text ≡ [] ∷ (dir ++ rest)) × (1 ≤ length rest)
prefix_split dir text d some_name h =
    let (u, e) = has_prefix-rest text (render dir ++ (separator ∷ [])) h in
    (
      split_path [] u,
      ap (split_path []) (e ∙ append_assoc (render dir) (separator ∷ []) u)
          ∙ (split_path-append [] (render dir) u
              ∙ ap (λ s. s ++ split_path [] u) (split_path-render dir d some_name)),
      split_path-some [] u,
    )

prefix_names :
    (dir path : List Text)
    → All IsName dir
    → All IsName path
    → 1 ≤ length dir
    → has_prefix (render path) (render dir ++ (separator ∷ [])) ≡ true
    → (rest : List Text) × (dir ++ rest ≡ path)
prefix_names dir [] d p some_name h =
    let (rest, e, more) = prefix_split dir (render []) d some_name h in
    absurd (too_short dir rest (sym e ∙ split_path-root) some_name more)
prefix_names dir (n ∷ names) d p some_name h =
    let (rest, e, more) = prefix_split dir (render (n ∷ names)) d some_name h in
    (
      rest,
      cons-inj [] [] (dir ++ rest) (n ∷ names)
          (sym e ∙ split_path-render (n ∷ names) p (omega arith)),
    )

same_names :
    (dir path : List Text)
    → All IsName dir
    → All IsName path
    → 1 ≤ length dir
    → render path ≡ render dir
    → dir ≡ path
same_names dir [] d p some_name h = absurd (
    not_root dir d some_name (
      cons-inj [] [] dir ([] ∷ [])
        (sym (split_path-render dir d some_name) ∙ (ap (split_path []) (sym h) ∙ split_path-root))))
same_names dir (n ∷ names) d p some_name h = cons-inj [] [] dir (n ∷ names) (
    sym (split_path-render dir d some_name)
    ∙ (ap (split_path []) (sym h) ∙ split_path-render (n ∷ names) p (omega arith)))

under_names :
    (dir path : List Text)
    → All IsName dir
    → All IsName path
    → (has_prefix (render path) (render dir ++ (separator ∷ [])) || render path == render dir)
      ≡ true
    → (rest : List Text) × (dir ++ rest ≡ path)
under_names [] path d p h = (path, refl)
under_names (n ∷ dir) path d p h =
    elim (or_true (has_prefix (render path) (render (n ∷ dir) ++ (separator ∷ [])))
      (render path == render (n ∷ dir)) h) [
        | inl e ↦ prefix_names (n ∷ dir) path d p (omega arith) e
        | inr e ↦ (
          [],
          append-nil (n ∷ dir)
              ∙ same_names (n ∷ dir) path d p (omega arith)
                  (eq_true (render path) (render (n ∷ dir)) e),
        )
      ]

-- Whatever is_inside_dir accepts, the path's elements start with the directory's.
pub is_inside_dir-IsUnder :
    (cwd dir path : Text) → is_inside_dir cwd dir path ≡ true → IsUnder cwd dir path
unfolding is_inside_dir abs
is_inside_dir-IsUnder cwd dir path h =
    under_names (abs_names cwd dir) (abs_names cwd path) (abs_names-IsName cwd dir)
      (abs_names-IsName cwd path) h

-- A path whose elements start with those of a directory other than the root is accepted.
has_names :
    (dir rest : List Text)
    → 1 ≤ length dir
    → (has_prefix (render (dir ++ rest)) (render dir ++ (separator ∷ []))
        || render (dir ++ rest) == render dir)
      ≡ true
has_names [] rest h = ground arith
has_names (n ∷ dir) [] _ = rw (append-nil dir) (or_true_right _ _ (eq_refl (rooted (n ∷ dir))))
has_names (n ∷ dir) (r ∷ rest) _ = or_true_left _ _ (
    ap (λ t. has_prefix t (rooted (n ∷ dir) ++ (separator ∷ []))) (rooted-append (n ∷ dir) r rest)
    ∙ has_prefix-append (rooted (n ∷ dir) ++ (separator ∷ [])) (r ++ rooted rest))

-- A path whose elements start with those of the directory is accepted, if the directory is not the root.
pub is_inside_dir_complete :
    (cwd dir path : Text)
    → 1 ≤ length (abs_names cwd dir)
    → IsUnder cwd dir path
    → is_inside_dir cwd dir path ≡ true
unfolding is_inside_dir abs
is_inside_dir_complete cwd dir path h (rest, e) =
    ap
      (λ p.
        has_prefix (render p) (render (abs_names cwd dir) ++ (separator ∷ []))
        || render p == render (abs_names cwd dir))
      (sym e)
    ∙ has_names (abs_names cwd dir) rest h

-- A path that is_path_in_configured_dirs accepts is under one of the directories: its elements start with
-- those of that directory.
pub is_path_in_configured_dirs-IsUnder :
    (cwd path : Text) (dirs : List Text)
    → is_path_in_configured_dirs cwd path dirs ≡ true
    → (dir : Text) × (contains dirs dir ≡ true) × IsUnder cwd dir path
unfolding is_path_in_configured_dirs
is_path_in_configured_dirs-IsUnder cwd path [] h = ground arith
is_path_in_configured_dirs-IsUnder cwd path (d ∷ dirs) h = elim (or_true _ _ h) [
  | inl e ↦
      (d, or_true_left (d == d) (contains dirs d) (eq_refl d), is_inside_dir-IsUnder cwd d path e)
  | inr e ↦
      let (dir, m, u) = is_path_in_configured_dirs-IsUnder cwd path dirs e in
      (dir, or_true_right (d == dir) (contains dirs dir) m, u)
]
