-- ===== src/Tests/Sources.antt =====
-- Splitting and chunking of small texts.
use mcpyeahyouknowme.Prelude.{◌≡◌, refl, some, List, [], ◌∷◌, arith, All, nat_eq}
use mcpyeahyouknowme.Sources.Text.{is_space, byte_len, last_index, trim_space, Text}
use mcpyeahyouknowme.Sources.Split.{
  split_entry, chat_cut, split_chat_transcript_entry, split_long_thread_entry,
}
use mcpyeahyouknowme.Sources.Split.Laws.{Splits, split-Splits}
use mcpyeahyouknowme.Sources.Chunks.{Message, Chunk, build_chat_chunks, build_gmail_thread_chunks}
use mcpyeahyouknowme.Sources.Chunks.Laws.{IsShort, build-IsShort}

-- "ab cd\nef"
abbrev entry : Text
entry = 97 ∷ 98 ∷ 32 ∷ 99 ∷ 100 ∷ 10 ∷ 101 ∷ 102 ∷ []

split_entry_parts :
    split_chat_transcript_entry entry 6
    ≡ some ((97 ∷ 98 ∷ 32 ∷ 99 ∷ 100 ∷ []) ∷ (101 ∷ 102 ∷ []) ∷ [])
unfolding split_entry nat_eq trim_space chat_cut last_index byte_len is_space
split_entry_parts = refl

split-Splits_example :
    Splits 3 entry (split_chat_transcript_entry entry 3)
    × Splits 3 entry (split_long_thread_entry entry 3)
split-Splits_example = split-Splits entry 3 (omega arith)

abbrev messages : List Message
messages =
    record { id = "m1"; date = "2024-01-01"; entry = entry }
    ∷ record { id = "m2"; date = "2024-01-02"; entry = [] }
    ∷ record { id = "m3"; date = "2024-01-03"; entry = entry }
    ∷ []

build-IsShort_example :
    ((chunks : List Chunk) × (build_chat_chunks (65 ∷ 10 ∷ []) messages ≡ some chunks)
      × All IsShort chunks)
    × ((chunks : List Chunk) × (build_gmail_thread_chunks (65 ∷ 10 ∷ []) messages ≡ some chunks)
        × All IsShort chunks)
build-IsShort_example = build-IsShort (65 ∷ 10 ∷ []) messages (omega arith)
