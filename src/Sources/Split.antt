-- ===== src/Sources/Split.antt =====
-- The splitting of an entry that is too long: splitChatTranscriptEntry of src/sources/whatsapp/source.go and
-- splitLongThreadEntry of src/sources/gsuite/app_gmail.go. Their loops differ in where they cut.
pub mod Laws
use mcpyeahyouknowme.Prelude.{
  ℕ, zero, suc, ◌/◌, Bool, true, false, not, ◌&&◌, ◌||◌, Option, none, some, List, [], ◌∷◌,
  if◌then◌else◌, leb, ltb, length, take, drop,
}
use mcpyeahyouknowme.Sources.Text.{Text, is_empty, trim_space, byte_len, last_index}

-- truncateChatRunes and truncateUTF8Runes, for a limit that is not negative
abbrev pub truncate : Text → ℕ → Text
truncate s limit = take limit s

-- A place that was found and lies in the second half: indices are in bytes.
unfoldable pub late_enough : Text → ℕ → Option ℕ → Option ℕ
late_enough prefix half none = none
late_enough prefix half (some i) = if ltb (byte_len (take i prefix)) half then none else some i

-- Where splitChatTranscriptEntry cuts: after the last newline or else the last blank, if it is late enough.
unfoldable pub chat_cut : Text → ℕ → ℕ
unfolding late_enough
chat_cut prefix limit = elim (late_enough prefix (limit / 2) (last_index 10 prefix)) [
  | some i ↦ i
  | none ↦ elim (late_enough prefix (limit / 2) (last_index 32 prefix)) [
    | some i ↦ i
    | none ↦ length prefix
  ]
]

-- Where splitLongThreadEntry cuts: before the last newline, if the text does not start with it.
unfoldable pub thread_cut : Text → ℕ → ℕ
thread_cut prefix limit = elim (last_index 10 prefix) [
  | none ↦ length prefix
  | some zero ↦ length prefix
  | some (suc i) ↦ suc i
]

module _ (cut : Text → ℕ → ℕ) where
  -- The loop, for at most `fuel` cuts.
  unfoldable pub split_loop : ℕ → ℕ → Text → Option (List Text)
  split_loop limit zero remaining =
      if leb (length remaining) limit
      then some (if is_empty remaining then [] else remaining ∷ [])
      else none
  split_loop limit (suc fuel) remaining =
      let n = cut (truncate remaining limit) limit in
      let rest = split_loop limit fuel (trim_space (drop n remaining)) in
      if leb (length remaining) limit
      then some (if is_empty remaining then [] else remaining ∷ [])
      else elim rest [ none ↦ none | some parts ↦ some (trim_space (take n remaining) ∷ parts) ]

  unfoldable pub split_entry : Text → ℕ → Option (List Text)
  unfolding split_loop
  split_entry entry limit =
      if leb limit 0 || leb (length entry) limit
      then some (entry ∷ [])
      else split_loop limit (length entry) entry

-- splitChatTranscriptEntry
abbrev pub split_chat_transcript_entry : Text → ℕ → Option (List Text)
split_chat_transcript_entry = split_entry chat_cut

-- splitLongThreadEntry
abbrev pub split_long_thread_entry : Text → ℕ → Option (List Text)
split_long_thread_entry = split_entry thread_cut
