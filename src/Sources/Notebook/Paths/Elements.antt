-- ===== src/Sources/Notebook/Paths/Elements.antt =====
-- The elements of a path: splitting a clean path gives back its elements.
use mcpyeahyouknowme.Prelude.{
  ℕ, ◌≤◌, ◌≡◌, inl, inr, refl, sym, ap, ◌∙◌, Bool, true, false, ◌||◌, List, [], ◌∷◌, ◌++◌, arith,
  if◌then◌else◌, ◌==◌, nat_eq, eq_refl, eq_true, length, Bool-cases, All, All-append,
}
use mathlib.Core.List.{append_assoc, append-nil}
use mcpyeahyouknowme.Sources.Text.{Text, text_eq, has_prefix, is_empty}
use mcpyeahyouknowme.Sources.Notebook.Paths.{
  separator, split_path, without_last, clean_names, is_abs, abs_names, rooted, render,
}

abbrev pub has_separator : Text → Bool
has_separator [] = false
has_separator (r ∷ t) = r == separator || has_separator t

-- An element of a clean path: some runes, and no separator.
abbrev pub IsName : Text → Type 0
IsName name = (is_empty name || has_separator name) ≡ false

pub or_false_left : (a b : Bool) → (a || b) ≡ false → a ≡ false
or_false_left a b h = ground arith

pub or_false_right : (a b : Bool) → (a || b) ≡ false → b ≡ false
or_false_right a b h = ground arith

pub split_path-at :
    (name : Text) (r : ℕ) (t : Text)
    → (r == separator) ≡ true
    → split_path name (r ∷ t) ≡ name ∷ split_path [] t
unfolding split_path
split_path-at name r t h = ground arith

pub split_path-on :
    (name : Text) (r : ℕ) (t : Text)
    → (r == separator) ≡ false
    → split_path name (r ∷ t) ≡ split_path (name ++ (r ∷ [])) t
unfolding split_path
split_path-on name r t h = ground arith

pub split_path-end : (name : Text) → split_path name [] ≡ name ∷ []
unfolding split_path
split_path-end name = refl

pub split_path-append :
    (name t u : Text)
    → split_path name (t ++ (separator ∷ u)) ≡ split_path name t ++ split_path [] u
split_path-append name [] u =
    split_path-at name separator u (eq_refl separator)
    ∙ sym (ap (λ s. s ++ split_path [] u) (split_path-end name))
split_path-append name (r ∷ t) u = elim (Bool-cases (r == separator)) [
  | inl e ↦
      rw (split_path-at name r (t ++ (separator ∷ u)) e, split_path-at name r t e)
        (ap (λ s. name ∷ s) (split_path-append [] t u))
  | inr e ↦
      rw (split_path-on name r (t ++ (separator ∷ u)) e, split_path-on name r t e)
        (split_path-append (name ++ (r ∷ [])) t u)
]

split_path-name :
    (done name t : Text)
    → has_separator name ≡ false
    → split_path done (name ++ t) ≡ split_path (done ++ name) t
split_path-name done [] t h = rw (append-nil done) refl
split_path-name done (r ∷ name) t h =
    let free : has_separator name ≡ false = ground arith in
    split_path-on done r (name ++ t) (ground arith)
    ∙ (split_path-name (done ++ (r ∷ [])) name t free
        ∙ ap (λ d. split_path d t) (append_assoc done (r ∷ []) name))

pub split_path-rooted :
    (done : Text) (names : List Text)
    → All IsName names
    → split_path done (rooted names) ≡ done ∷ names
unfolding rooted
split_path-rooted done [] _ = split_path-end done
split_path-rooted done (name ∷ names) (h, hs) =
    split_path-at done separator (name ++ rooted names) (eq_refl separator)
    ∙ ap (λ s. done ∷ s)
        (split_path-name [] name (rooted names)
            (or_false_right (is_empty name) (has_separator name) h)
          ∙ split_path-rooted name names hs)

-- Elements of a split have no separator, and clean_names keeps only those that are not empty.
AreFree : List Text → Type 0
AreFree = All (λ name. has_separator name ≡ false)

has_separator-append : (t u : Text) → has_separator (t ++ u) ≡ (has_separator t || has_separator u)
has_separator-append [] u = refl
has_separator-append (r ∷ t) u = ground (arith, has_separator-append t u)

split_path-AreFree : (name t : Text) → has_separator name ≡ false → AreFree (split_path name t)
unfolding AreFree
split_path-AreFree name [] h = rw (split_path-end name) (h, tt)
split_path-AreFree name (r ∷ t) h = elim (Bool-cases (r == separator)) [
  | inl e ↦ rw (split_path-at name r t e) (h, split_path-AreFree [] t refl)
  | inr e ↦
      rw (split_path-on name r t e) (
        split_path-AreFree (name ++ (r ∷ [])) t (has_separator-append name (r ∷ []) ∙ ground arith))
]

without_last-All : (names : List Text) → All IsName names → All IsName (without_last names)
without_last-All [] _ = tt
without_last-All (n ∷ []) _ = tt
without_last-All (n ∷ m ∷ names) (h, hs) = (h, without_last-All (m ∷ names) hs)

clean_step-IsName :
    (done : List Text) (name : Text)
    → All IsName done
    → has_separator name ≡ false
    → All IsName (
        if is_empty name || name == 46 ∷ []
        then done
        else if name == 46 ∷ 46 ∷ []
        then without_last done
        else done ++ (name ∷ []))
clean_step-IsName done name d h = elim (Bool-cases (is_empty name || name == 46 ∷ [])) [
  | inl e ↦ rw e d
  | inr e ↦ rw e (elim (Bool-cases (name == 46 ∷ 46 ∷ [])) [
    | inl f ↦ rw f (without_last-All done d)
    | inr f ↦ rw f (
        All-append IsName done (name ∷ []) d
          (rw (or_false_left (is_empty name) (name == 46 ∷ []) e) h, tt))
  ])
]

clean_names-IsName :
    (names done : List Text) → All IsName done → AreFree names → All IsName (clean_names done names)
unfolding clean_names AreFree
clean_names-IsName [] done d _ = d
clean_names-IsName (name ∷ names) done d (h, hs) =
    clean_names-IsName names
      (if is_empty name || name == 46 ∷ []
        then done
        else if name == 46 ∷ 46 ∷ []
        then without_last done
        else done ++ (name ∷ []))
      (clean_step-IsName done name d h) hs

pub abs_names-IsName : (cwd path : Text) → All IsName (abs_names cwd path)
unfolding abs_names
abs_names-IsName cwd path =
    let full : Text = if is_abs path then path else cwd ++ (separator ∷ path) in
    clean_names-IsName (split_path [] full) [] tt (split_path-AreFree [] full refl)

pub cons-inj : (a b : Text) (s t : List Text) → a ∷ s ≡ b ∷ t → s ≡ t
cons-inj a b s t e = ground (arith, e)

-- A text with the prefix `p` is `p` and the rest.
pub has_prefix-rest : (t p : Text) → has_prefix t p ≡ true → (u : Text) × (t ≡ p ++ u)
has_prefix-rest t [] h = (t, refl)
has_prefix-rest [] (r ∷ p) h = ground arith
has_prefix-rest (x ∷ t) (r ∷ p) h =
    let (u, e) = has_prefix-rest t p (ground arith) in
    (u, ground (arith, e, eq_true x r (ground arith)))

pub has_prefix-append : (p u : Text) → has_prefix (p ++ u) p ≡ true
has_prefix-append [] u = refl
has_prefix-append (r ∷ p) u = ground (arith, has_prefix-append p u, eq_refl r)

-- The elements of what render makes.
pub split_path-render :
    (names : List Text)
    → All IsName names
    → 1 ≤ length names
    → split_path [] (render names) ≡ [] ∷ names
split_path-render [] _ h = ground arith
split_path-render (n ∷ names) hs _ = split_path-rooted [] (n ∷ names) hs

pub split_path-root : split_path [] (render []) ≡ [] ∷ [] ∷ []
split_path-root =
    split_path-at [] separator [] (eq_refl separator) ∙ ap (λ s. [] ∷ s) (split_path-end [])
