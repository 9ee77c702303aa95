-- ===== src/Search/Profile/Laws.antt =====
-- The references that the profile tool follows.
use mathlib.Core.Path.{subst}
use mcpyeahyouknowme.Prelude.{
  ℕ, ◌≤◌, ◌<◌, ◌≡◌, refl, sym, ap, ◌∙◌, Bool, true, false, not, ◌&&◌, Bool-cases, inl, inr, List,
  [], ◌∷◌, ◌++◌, if◌then◌else◌, contains, leb, length, length-append, All, All-append, arith,
}
use mcpyeahyouknowme.Sources.Text.{Text, text_eq, is_empty, trim_space}
use mcpyeahyouknowme.Search.Profile.{
  Refs, add_ref, wiki_loop, is_url, md_loop, stem_link_path, extract_note_refs,
}

-- No key stands in the list twice.
abbrev pub AreDistinct : List Text → Type 0
AreDistinct [] = Unit
AreDistinct (k ∷ keys) = (contains keys k ≡ false) × AreDistinct keys

module _ (to_lower : Text → Text) where
  -- The lower-case names, the last one first.
  abbrev pub keys_onto : List Text → List Text → List Text
  keys_onto keys [] = keys
  keys_onto keys (name ∷ names) = keys_onto (to_lower name ∷ keys) names

  abbrev HasName : Text → Type 0
  HasName name = is_empty name ≡ false

  -- Fewer than `n` references, with a name each and no two the same; `seen` holds their keys.
  abbrev IsRefs : ℕ → Refs → Type 0
  IsRefs n (seen, refs) =
      (length refs < n) × (seen ≡ keys_onto [] refs) × AreDistinct seen × All HasName refs

  keys_onto-append :
      (keys names : List Text) (name : Text)
      → keys_onto keys (names ++ (name ∷ [])) ≡ to_lower name ∷ keys_onto keys names
  keys_onto-append keys [] name = refl
  keys_onto-append keys (n ∷ names) name = keys_onto-append (to_lower n ∷ keys) names name

  and_left : (a b : Bool) → (not a && not b) ≡ true → a ≡ false
  and_left a b h = ground arith

  and_right : (a b : Bool) → (not a && not b) ≡ true → b ≡ false
  and_right a b h = ground arith

  add_ref-IsRefs : (name : Text) (s : Refs) → IsRefs 5 s → IsRefs 6 (add_ref to_lower name s)
  unfolding add_ref
  add_ref-IsRefs name (seen, refs) (n, keys, distinct, named) =
      elim (Bool-cases (not (is_empty name) && not (contains seen (to_lower name)))) [
        | inl t ↦ rw t (
          omega (arith, length-append refs (name ∷ [])),
          ap (λ k. to_lower name ∷ k) keys ∙ sym (keys_onto-append [] refs name),
          (and_right (is_empty name) (contains seen (to_lower name)) t, distinct),
          All-append HasName refs (name ∷ []) named
              (and_left (is_empty name) (contains seen (to_lower name)) t, tt),
        )
        | inr f ↦ rw f (omega (arith, n), keys, distinct, named)
      ]

  abbrev IsEnd : Refs × Bool → Type 0
  IsEnd (s, true) = IsRefs 6 s
  IsEnd (s, false) = IsRefs 5 s

  fewer : (s : Refs) → leb 5 (length (s.1)) ≡ false → IsRefs 6 s → IsRefs 5 s
  fewer (seen, refs) h (n, keys, distinct, named) = (ground arith, keys, distinct, named)

  weaker : (s : Refs) → IsRefs 5 s → IsRefs 6 s
  weaker (seen, refs) (n, keys, distinct, named) = (omega arith, keys, distinct, named)

  wiki_loop-IsEnd : (ms : List Text) (s : Refs) → IsRefs 5 s → IsEnd (wiki_loop to_lower ms s)
  unfolding wiki_loop
  wiki_loop-IsEnd [] s h = h
  wiki_loop-IsEnd (m ∷ ms) s h =
      let s' : Refs = add_ref to_lower (trim_space m) s in
      let one_more : IsRefs 6 s' = add_ref-IsRefs (trim_space m) s h in
      elim (Bool-cases (leb 5 (length (s'.1)))) [
        | inl t ↦ rw t one_more
        | inr f ↦ rw f (wiki_loop-IsEnd ms s' (fewer s' f one_more))
      ]

  md_loop-IsRefs : (ms : List Text) (s : Refs) → IsRefs 5 s → IsRefs 6 (md_loop to_lower ms s)
  unfolding md_loop
  md_loop-IsRefs [] s h = weaker s h
  md_loop-IsRefs (m ∷ ms) s h =
      let s' : Refs = add_ref to_lower (stem_link_path (trim_space m)) s in
      let one_more : IsRefs 6 s' = add_ref-IsRefs (stem_link_path (trim_space m)) s h in
      elim (Bool-cases (is_url to_lower (trim_space m))) [
        | inl u ↦ rw u (md_loop-IsRefs ms s h)
        | inr u ↦ rw u (elim (Bool-cases (leb 5 (length (s'.1)))) [
          | inl t ↦ rw t one_more
          | inr f ↦ rw f (md_loop-IsRefs ms s' (fewer s' f one_more))
        ])
      ]

  -- At most five references, with a name each, of which no two have the same lower-case name.
  abbrev pub AreRefs : List Text → Type 0
  AreRefs refs = (length refs ≤ 5) × AreDistinct (keys_onto [] refs) × All HasName refs

  IsRefs-AreRefs : (s : Refs) → IsRefs 6 s → AreRefs (s.1)
  IsRefs-AreRefs (seen, refs) (n, keys, distinct, named) =
      (omega (arith, n), subst AreDistinct keys distinct, named)

  after_wiki :
      (md : List Text) (end : Refs × Bool)
      → IsEnd end
      → AreRefs (if end.1 then end.0.1 else (md_loop to_lower md (end.0)).1)
  after_wiki md (s, true) h = IsRefs-AreRefs s h
  after_wiki md (s, false) h = IsRefs-AreRefs (md_loop to_lower md s) (md_loop-IsRefs md s h)

-- Whatever links a note has, the profile tool follows at most five references of it, each with a name that is
-- not empty, and no two of them have the same lower-case name.
pub extract_note_refs-AreRefs :
    (to_lower : Text → Text) (wiki md : List Text)
    → AreRefs to_lower (extract_note_refs to_lower wiki md)
unfolding extract_note_refs
extract_note_refs-AreRefs to_lower wiki md =
    after_wiki to_lower md (wiki_loop to_lower wiki ([], []))
      (wiki_loop-IsEnd to_lower wiki ([], []) (omega arith, refl, tt, tt))
