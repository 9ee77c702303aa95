-- ===== src/Sources/Notebook/ChunkText/Laws.antt =====
-- The chunks of a note: that there are some, and what they hold.
use mathlib.Core.List.{append-nil}
use mcpyeahyouknowme.Prelude.{
  ℕ, zero, suc, ◌≤◌, ◌<◌, ◌≡◌, inl, inr, refl, sym, ap, ◌∙◌, Bool, true, false, not, Option, some,
  List, [], ◌∷◌, arith, if◌then◌else◌, leb, length, take, drop, all, Bool-cases, length-drop,
}
use mcpyeahyouknowme.Sources.Text.{Text, is_space, is_empty, trim_space, trim_left, trim_right}
use mcpyeahyouknowme.Sources.Text.Laws.{length-trim_space, ink, ink-trim_space, ink-pieces}
use mcpyeahyouknowme.Sources.Split.Laws.{joined}
use mcpyeahyouknowme.Sources.Chunks.{chunk_max_chars}
use mcpyeahyouknowme.Sources.Notebook.ChunkText.{word_rest, cut_at, chunk_loop, chunk_text}

-- It ends, and what is not white space is kept in order.
abbrev pub Holds : Text → Option (List Text) → Type 0
Holds text out = (chunks : List Text) × (out ≡ some chunks) × (ink (joined chunks) ≡ ink text)

small-Holds : (text : Text) → Holds text (some (if is_empty text then [] else text ∷ []))
small-Holds [] = ([], refl, refl)
small-Holds (r ∷ t) = ((r ∷ t) ∷ [], refl, ap ink (append-nil (r ∷ t)))

rest-shorter :
    (text : Text)
    → chunk_max_chars < length text
    → length (trim_space (drop (cut_at text) text)) < length text
rest-shorter text long =
    omega (arith, length-trim_space (drop (cut_at text) text), length-drop (cut_at text) text)

chunk_loop-Holds : (fuel : ℕ) (text : Text) → length text ≤ fuel → Holds text (chunk_loop fuel text)
unfolding chunk_loop
chunk_loop-Holds zero [] enough = ([], ground arith, refl)
chunk_loop-Holds zero (r ∷ t) enough = ground arith
chunk_loop-Holds (suc fuel) text enough = elim (Bool-cases (leb (length text) chunk_max_chars)) [
  | inl e ↦ (let (chunks, same, held) = small-Holds text in (chunks, rw e same, held))
  | inr e ↦
      let shorter = rest-shorter text (ground arith) in
      let (chunks, got, held) =
        chunk_loop-Holds fuel (trim_space (drop (cut_at text) text)) (omega arith) in
      (
        trim_space (take (cut_at text) text) ∷ chunks,
        rw (e, got) refl,
        ink-pieces (cut_at text) text (joined chunks) held,
      )
]

empty_text : (t : Text) → is_empty t ≡ true → t ≡ []
empty_text [] h = refl
empty_text (r ∷ t) h = ground arith

chunk_text_long :
    (t : Text)
    → is_empty (trim_space t) ≡ false
    → leb (length (trim_space t)) chunk_max_chars ≡ false
    → chunk_text t ≡ chunk_loop (length (trim_space t)) (trim_space t)
unfolding chunk_text
chunk_text_long t e long = ground arith

-- chunkText ends, within as many rounds as the trimmed text has runes, and its chunks hold, in order, all
-- of the text but its white space.
pub chunk_text-Holds : (t : Text) → Holds t (chunk_text t)
unfolding chunk_text
chunk_text-Holds t = elim (Bool-cases (is_empty (trim_space t))) [
  | inl e ↦ ([] ∷ [], ground arith, sym (ap ink (empty_text (trim_space t) e)) ∙ ink-trim_space t)
  | inr e ↦ elim (Bool-cases (leb (length (trim_space t)) chunk_max_chars)) [
    | inl short ↦
        (trim_space t ∷ [], ground arith, ap ink (append-nil (trim_space t)) ∙ ink-trim_space t)
    | inr long ↦
        let (chunks, got, held) =
          chunk_loop-Holds (length (trim_space t)) (trim_space t) (omega arith) in
        (chunks, chunk_text_long t e long ∙ got, held ∙ ink-trim_space t)
  ]
]

abbrev pub solid : Text → Bool
solid t = all (λ r. not (is_space r)) t

trim_left-solid : (t : Text) → solid t ≡ true → trim_left t ≡ t
unfolding trim_left
trim_left-solid [] h = refl
trim_left-solid (r ∷ t) h = ground arith

trim_right-solid : (t : Text) → solid t ≡ true → trim_right t ≡ t
unfolding trim_right
trim_right-solid [] h = refl
trim_right-solid (r ∷ t) h = ground (arith, trim_right-solid t)

trim_space-solid : (t : Text) → solid t ≡ true → trim_space t ≡ t
unfolding trim_space
trim_space-solid t h = ap trim_right (trim_left-solid t h) ∙ trim_right-solid t h

solid-take : (n : ℕ) (t : Text) → solid t ≡ true → solid (take n t) ≡ true
solid-take zero t h = refl
solid-take (suc n) [] h = refl
solid-take (suc n) (r ∷ t) h = ground (arith, solid-take n t)

solid-drop : (n : ℕ) (t : Text) → solid t ≡ true → solid (drop n t) ≡ true
solid-drop zero t h = h
solid-drop (suc n) [] h = refl
solid-drop (suc n) (r ∷ t) h = ground (arith, solid-drop n t)

word_rest-solid : (t : Text) → solid t ≡ true → word_rest t ≡ length t
unfolding word_rest
word_rest-solid [] h = refl
word_rest-solid (r ∷ t) h = ground (arith, word_rest-solid t)

take_all : (n : ℕ) (t : Text) → length t ≤ n → take n t ≡ t
take_all zero [] h = refl
take_all zero (r ∷ t) h = ground arith
take_all (suc n) [] h = refl
take_all (suc n) (r ∷ t) h = ap (λ x. r ∷ x) (take_all n t (omega arith))

drop_all : (n : ℕ) (t : Text) → length t ≤ n → drop n t ≡ []
drop_all zero [] h = refl
drop_all zero (r ∷ t) h = ground arith
drop_all (suc n) [] h = refl
drop_all (suc n) (r ∷ t) h = drop_all n t (omega arith)

cut_at-solid : (t : Text) → solid t ≡ true → chunk_max_chars < length t → length t ≤ cut_at t
cut_at-solid t h long = omega (
  arith,
  word_rest-solid (drop chunk_max_chars t) (solid-drop chunk_max_chars t h),
  length-drop chunk_max_chars t,
)

chunk_loop-nil : (fuel : ℕ) → chunk_loop fuel [] ≡ some []
unfolding chunk_loop
chunk_loop-nil zero = ground arith
chunk_loop-nil (suc fuel) = ground arith

trim_nil : trim_space [] ≡ []
unfolding trim_space trim_left trim_right
trim_nil = refl

chunk_loop-step :
    (fuel : ℕ) (t : Text) (chunks : List Text)
    → leb (length t) chunk_max_chars ≡ false
    → chunk_loop fuel (trim_space (drop (cut_at t) t)) ≡ some chunks
    → chunk_loop (suc fuel) t ≡ some (trim_space (take (cut_at t) t) ∷ chunks)
unfolding chunk_loop
chunk_loop-step fuel t chunks long rest = rw (long, rest) refl

chunk_loop-solid :
    (fuel : ℕ) (t : Text)
    → solid t ≡ true
    → chunk_max_chars < length t
    → chunk_loop (suc fuel) t ≡ some (t ∷ [])
chunk_loop-solid fuel t h long =
    chunk_loop-step fuel t [] (ground arith) (
      ap (λ x. chunk_loop fuel (trim_space x)) (drop_all (cut_at t) t (cut_at-solid t h long))
      ∙ ap (chunk_loop fuel) trim_nil
      ∙ chunk_loop-nil fuel)
    ∙ ap (λ x. some (x ∷ []))
        (ap trim_space (take_all (cut_at t) t (cut_at-solid t h long)) ∙ trim_space-solid t h)

-- A text of more than ChunkMaxChars runes without white space becomes one chunk, which is that long.
pub chunk_text-solid :
    (t : Text) → solid t ≡ true → chunk_max_chars < length t → chunk_text t ≡ some (t ∷ [])
chunk_text-solid [] h long = ground arith
chunk_text-solid (r ∷ t) h long =
    let same = trim_space-solid (r ∷ t) h in
    chunk_text_long (r ∷ t) (ap is_empty same)
      (ap (λ x. leb (length x) chunk_max_chars) same ∙ ground arith)
    ∙ ap (λ x. chunk_loop (length x) x) same
    ∙ chunk_loop-solid (length t) (r ∷ t) h long
