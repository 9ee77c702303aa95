-- ===== src/Sources/Split/Laws.antt =====
-- The parts of an entry: that there are some, how long they are, and what they hold.
use mathlib.Core.Path.{subst}
use mathlib.Core.List.{append-nil}
use mcpyeahyouknowme.Prelude.{
  ℕ, zero, suc, ◌/◌, ◌≤◌, ◌<◌, ◌≡◌, ◌⊎◌, refl, sym, ap, ◌∙◌, true, false, Option, none, some, List,
  [], ◌∷◌, ◌++◌, arith, if◌then◌else◌, nat_eq, leb, length, take, drop, All, Bool-cases,
  Option-cases, inl, inr, length-take, length-drop,
}
use mcpyeahyouknowme.Sources.Text.{Text, is_space, is_empty, trim_space, last_index}
use mcpyeahyouknowme.Sources.Text.Laws.{
  length-trim_space, length-trim_space_first, ink, ink-pieces, last_index-bound, last_index-zero,
}
use mcpyeahyouknowme.Sources.Split.{
  truncate, late_enough, chat_cut, thread_cut, split_loop, split_entry, split_chat_transcript_entry,
  split_long_thread_entry,
}

abbrev pub joined : List Text → Text
joined [] = []
joined (t ∷ ts) = t ++ joined ts

-- A way to cut that the loop can use: it stays in the prefix, and what is left gets shorter.
pub record IsCut (cut : Text → ℕ → ℕ) : Type 0 where
  pub within : (prefix : Text) (limit : ℕ) → cut prefix limit ≤ length prefix
  pub shrinks :
      (remaining : Text) (limit : ℕ)
      → 1 ≤ limit
      → limit < length remaining
      → length (trim_space (drop (cut (truncate remaining limit) limit) remaining))
        < length remaining

drop-shrinks :
    (n : ℕ) (remaining : Text)
    → 1 ≤ n
    → 1 ≤ length remaining
    → length (trim_space (drop n remaining)) < length remaining
drop-shrinks n remaining pos some_left =
    omega (arith, length-trim_space (drop n remaining), length-drop n remaining)

thread_cut-within : (prefix : Text) (limit : ℕ) → thread_cut prefix limit ≤ length prefix
unfolding thread_cut
thread_cut-within prefix limit = elim (Option-cases (last_index 10 prefix)) [
  | inl e ↦ ground arith
  | inr (i, e) ↦ ground (arith, last_index-bound 10 i prefix e)
]

thread_cut-pos : (prefix : Text) (limit : ℕ) → 1 ≤ length prefix → 1 ≤ thread_cut prefix limit
unfolding thread_cut
thread_cut-pos prefix limit h = ground arith

thread_cut-IsCut : IsCut thread_cut
thread_cut-IsCut = record {
  within = thread_cut-within;
  shrinks = λ remaining limit pos long.
      drop-shrinks (thread_cut (truncate remaining limit) limit) remaining
        (thread_cut-pos (truncate remaining limit) limit
          (omega (arith, length-take limit remaining)))
        (omega arith);
}

late_enough-found :
    (prefix : Text) (half i : ℕ) (o : Option ℕ) → late_enough prefix half o ≡ some i → o ≡ some i
unfolding late_enough
late_enough-found prefix half i none h = h
late_enough-found prefix half i (some j) h = ground arith

chat_cut-cases :
    (prefix : Text) (limit : ℕ)
    → (last_index 10 prefix ≡ some (chat_cut prefix limit))
      ⊎ ((last_index 32 prefix ≡ some (chat_cut prefix limit))
          ⊎ (chat_cut prefix limit ≡ length prefix))
unfolding chat_cut
chat_cut-cases prefix limit =
    elim (Option-cases (late_enough prefix (limit / 2) (last_index 10 prefix))) [
      | inr (i, e) ↦
          inl (ground (arith, late_enough-found prefix (limit / 2) i (last_index 10 prefix) e))
      | inl e ↦ elim (Option-cases (late_enough prefix (limit / 2) (last_index 32 prefix))) [
        | inr (i, f) ↦
            inr (
              inl (ground (arith, late_enough-found prefix (limit / 2) i (last_index 32 prefix) f)))
        | inl f ↦ inr (inr (ground arith))
      ]
    ]

chat_cut-within : (prefix : Text) (limit : ℕ) → chat_cut prefix limit ≤ length prefix
chat_cut-within prefix limit = elim (chat_cut-cases prefix limit) [
  | inl e ↦ omega (arith, last_index-bound 10 (chat_cut prefix limit) prefix e)
  | inr (inl e) ↦ omega (arith, last_index-bound 32 (chat_cut prefix limit) prefix e)
  | inr (inr e) ↦ omega (arith, e)
]

zero-or-pos : (n : ℕ) → (n ≡ 0) ⊎ (1 ≤ n)
zero-or-pos zero = inl refl
zero-or-pos (suc n) = inr (omega arith)

blanks : (is_space 10 ≡ true) × (is_space 32 ≡ true)
unfolding is_space nat_eq
blanks = (refl, refl)

-- A cut at the very start is in front of a space.
chat_cut-space : (r : ℕ) (t : Text) (limit : ℕ) → (1 ≤ chat_cut (r ∷ t) limit) ⊎ (is_space r ≡ true)
chat_cut-space r t limit = elim (zero-or-pos (chat_cut (r ∷ t) limit)) [
  | inr pos ↦ inl pos
  | inl z ↦ elim (chat_cut-cases (r ∷ t) limit) [
    | inl e ↦ inr (ap is_space (last_index-zero 10 r t (e ∙ ap some z)) ∙ blanks.0)
    | inr (inl e) ↦ inr (ap is_space (last_index-zero 32 r t (e ∙ ap some z)) ∙ blanks.1)
    | inr (inr e) ↦ inl (ground (arith, e))
  ]
]

chat_cut-shrinks :
    (remaining : Text) (limit : ℕ)
    → 1 ≤ limit
    → limit < length remaining
    → length (trim_space (drop (chat_cut (truncate remaining limit) limit) remaining))
      < length remaining
chat_cut-shrinks [] limit pos long = ground arith
chat_cut-shrinks (r ∷ t) zero pos long = ground arith
chat_cut-shrinks (r ∷ t) (suc l) pos long =
    let n = chat_cut (r ∷ take l t) (suc l) in
    elim (zero-or-pos n) [
      | inr p ↦ drop-shrinks n (r ∷ t) p (ground arith)
      | inl z ↦ elim (chat_cut-space r (take l t) (suc l)) [
        | inl p ↦ drop-shrinks n (r ∷ t) p (ground arith)
        | inr sp ↦ rw z (omega (arith, length-trim_space_first r t sp))
      ]
    ]

chat_cut-IsCut : IsCut chat_cut
chat_cut-IsCut = record { within = chat_cut-within; shrinks = chat_cut-shrinks }

-- What a split promises: it ends, no part is too long, and the parts hold all that is not white space.
abbrev pub Splits : ℕ → Text → Option (List Text) → Type 0
Splits limit entry out =
    (parts : List Text) × (out ≡ some parts)
    × All (λ (t : Text). length t ≤ limit) parts
    × (ink (joined parts) ≡ ink entry)

module _ (cut : Text → ℕ → ℕ) (h : IsCut cut) where
  small-Splits :
      (limit : ℕ) (remaining : Text)
      → length remaining ≤ limit
      → Splits limit remaining (some (if is_empty remaining then [] else remaining ∷ []))
  small-Splits limit [] short = ([], refl, tt, refl)
  small-Splits limit (r ∷ t) short = ((r ∷ t) ∷ [], refl, (short, tt), ap ink (append-nil (r ∷ t)))

  ink-cut :
      (n : ℕ) (t : Text) (parts : List Text)
      → ink (joined parts) ≡ ink (trim_space (drop n t))
      → ink (joined (trim_space (take n t) ∷ parts)) ≡ ink t
  ink-cut n t parts same = ink-pieces n t (joined parts) same

  part-bound :
      (limit : ℕ) (t : Text) → length (trim_space (take (cut (truncate t limit) limit) t)) ≤ limit
  part-bound limit t =
      let n = cut (truncate t limit) limit in
      omega (
        arith,
        length-trim_space (take n t),
        length-take n t,
        h.within (truncate t limit) limit,
        length-take limit t,
      )

  split_loop-Splits :
      (limit fuel : ℕ) (remaining : Text)
      → 1 ≤ limit
      → length remaining ≤ fuel
      → Splits limit remaining (split_loop cut limit fuel remaining)
  unfolding split_loop
  split_loop-Splits limit zero [] pos enough = ([], ground arith, tt, refl)
  split_loop-Splits limit zero (r ∷ t) pos enough = ground arith
  split_loop-Splits limit (suc fuel) remaining pos enough =
      let n = cut (truncate remaining limit) limit in
      elim (Bool-cases (leb (length remaining) limit)) [
        | inl e ↦
            let (parts, same, bounds, text) = small-Splits limit remaining (ground arith) in
            (parts, rw e same, bounds, text)
        | inr e ↦
            let shorter = h.shrinks remaining limit pos (ground arith) in
            let (parts, got, bounds, same) =
              split_loop-Splits limit fuel (trim_space (drop n remaining)) pos (omega arith) in
            (
              trim_space (take n remaining) ∷ parts,
              rw (e, got) refl,
              (part-bound limit remaining, bounds),
              ink-cut n remaining parts same,
            )
      ]

  split_entry-long :
      (entry : Text) (limit : ℕ)
      → 1 ≤ limit
      → leb (length entry) limit ≡ false
      → split_entry cut entry limit ≡ split_loop cut limit (length entry) entry
  unfolding split_entry
  split_entry-long entry limit pos e = ground arith

  split_entry-Splits :
      (entry : Text) (limit : ℕ) → 1 ≤ limit → Splits limit entry (split_entry cut entry limit)
  unfolding split_entry
  split_entry-Splits entry limit pos = elim (Bool-cases (leb (length entry) limit)) [
    | inl e ↦ (entry ∷ [], ground arith, (ground arith, tt), ap ink (append-nil entry))
    | inr e ↦
        subst (Splits limit entry) (sym (split_entry-long entry limit pos e))
          (split_loop-Splits limit (length entry) entry pos (omega arith))
  ]

-- For a positive limit, splitChatTranscriptEntry and splitLongThreadEntry end, within as many rounds as the
-- entry has runes; every part has at most `limit` runes, and the parts hold, in order, all of the entry but
-- its white space.
pub split-Splits :
    (entry : Text) (limit : ℕ)
    → 1 ≤ limit
    → Splits limit entry (split_chat_transcript_entry entry limit)
      × Splits limit entry (split_long_thread_entry entry limit)
split-Splits entry limit pos = (
  split_entry-Splits chat_cut chat_cut-IsCut entry limit pos,
  split_entry-Splits thread_cut thread_cut-IsCut entry limit pos,
)
