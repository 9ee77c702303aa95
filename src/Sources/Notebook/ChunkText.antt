-- ===== src/Sources/Notebook/ChunkText.antt =====
-- chunkText of src/sources/notebook/extract.go.
pub mod Laws
use mcpyeahyouknowme.Prelude.{
  ℕ, zero, suc, ◌+◌, Bool, true, false, not, Option, none, some, List, [], ◌∷◌, if◌then◌else◌, leb,
  length, take, drop,
}
use mcpyeahyouknowme.Sources.Text.{Text, is_space, is_empty, trim_space}
use mcpyeahyouknowme.Sources.Chunks.{chunk_max_chars}

-- How far the inner loop moves the cut: to the next white space or the end.
unfoldable pub word_rest : Text → ℕ
word_rest [] = 0
word_rest (r ∷ t) = let n = word_rest t in if is_space r then 0 else suc n

abbrev pub cut_at : Text → ℕ
cut_at text = chunk_max_chars + word_rest (drop chunk_max_chars text)

-- The outer loop, for at most `fuel` chunks.
unfoldable pub chunk_loop : ℕ → Text → Option (List Text)
unfolding word_rest
chunk_loop zero text =
    if leb (length text) chunk_max_chars
    then some (if is_empty text then [] else text ∷ [])
    else none
chunk_loop (suc fuel) text =
    let cut = cut_at text in
    let rest = chunk_loop fuel (trim_space (drop cut text)) in
    if leb (length text) chunk_max_chars
    then some (if is_empty text then [] else text ∷ [])
    else elim rest [ none ↦ none | some chunks ↦ some (trim_space (take cut text) ∷ chunks) ]

-- The text is valid UTF-8: a sequence of runes.
unfoldable pub chunk_text : Text → Option (List Text)
unfolding chunk_loop
chunk_text t =
    let text = trim_space t in
    if is_empty text
    then some ([] ∷ [])
    else if leb (length text) chunk_max_chars
    then some (text ∷ [])
    else chunk_loop (length text) text
