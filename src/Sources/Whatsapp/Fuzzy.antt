-- ===== src/Sources/Whatsapp/Fuzzy.antt =====
-- src/sources/whatsapp/helpers.go without parseTime: fuzzy matching of chats and contacts, on texts as sequences of
-- runes (they are valid UTF-8, so that a substring of bytes is one of runes; indices count runes). A ratio is
-- a pair of a numerator and a denominator, and comparisons are of fractions: for texts below 2 ^ 49 runes
-- the floating-point quotients compare the same way.
pub mod Subsequences
pub mod Laws
use mcpyeahyouknowme.Prelude.{
  ℕ, zero, suc, ◌+◌, ◌*◌, Bool, true, false, not, ◌&&◌, ◌||◌, Option, none, some, List, [], ◌∷◌,
  ◌++◌, if◌then◌else◌, ◌==◌, contains, nat_eq, leb, ltb, length, take,
}
use mcpyeahyouknowme.Sources.Text.{Text, is_empty, has_prefix}

-- curr[j] from prev[j-1], prev[j] and curr[j-1].
unfoldable pub cell : ℕ → ℕ → ℕ → ℕ → ℕ → ℕ
cell x y diag up left = if x == y then suc diag else if ltb left up then up else left

-- The loop over j from the cells on the left; `prev` is prev[j:].
unfoldable pub fill_row : ℕ → Text → ℕ → List ℕ → ℕ → List ℕ
unfolding cell
fill_row x [] diag prev left = []
fill_row x (y ∷ b) diag [] left = []
fill_row x (y ∷ b) diag (up ∷ prev) left =
    let c = cell x y diag up left in c ∷ fill_row x b up prev c

abbrev pub zeros : Text → List ℕ
zeros [] = []
zeros (y ∷ b) = 0 ∷ zeros b

-- The loop over i. Cell 0 of each row is 0, so that `prev` is prev[1:].
unfoldable pub rows : Text → Text → List ℕ → List ℕ
unfolding fill_row
rows [] b prev = prev
rows (x ∷ a) b prev = rows a b (fill_row x b 0 prev 0)

-- prev[n], from prev[0] and prev[1:]
abbrev pub last_cell : ℕ → List ℕ → ℕ
last_cell c [] = c
last_cell c (d ∷ row) = last_cell d row

unfoldable pub lcs_length : Text → Text → ℕ
unfolding rows
lcs_length a b = last_cell 0 (rows a b (zeros b))

-- sequenceMatcherRatio
unfoldable pub sequence_matcher_ratio : Text → Text → ℕ × ℕ
unfolding lcs_length
sequence_matcher_ratio a b =
    if is_empty a && is_empty b
    then (1, 1)
    else if is_empty a || is_empty b
    then (0, 1)
    else (2 * lcs_length a b, length a + length b)

-- indexSubstring, with `none` for -1
unfoldable pub index_substring : Text → Text → Option ℕ
index_substring [] sub = if is_empty sub then some 0 else none
index_substring (r ∷ s) sub =
    let later = index_substring s sub in
    if has_prefix (r ∷ s) sub then some 0 else elim later [ none ↦ none | some i ↦ some (suc i) ]

-- containsSubstring
unfoldable pub contains_substring : Text → Text → Bool
unfolding index_substring
contains_substring haystack needle =
    leb (length needle) (length haystack)
    && elim (index_substring haystack needle) [ none ↦ false | some i ↦ true ]

-- splitWords; `word` is s[start:i], empty while start is -1.
abbrev pub is_blank : ℕ → Bool
is_blank r = contains (32 ∷ 9 ∷ 10 ∷ 13 ∷ []) r

unfoldable pub words_loop : Text → Text → List Text
words_loop word [] = if is_empty word then [] else word ∷ []
words_loop word (r ∷ s) =
    let more = words_loop [] s in
    let longer = words_loop (word ++ (r ∷ [])) s in
    if is_blank r then (if is_empty word then more else word ∷ more) else longer

unfoldable pub split_words : Text → List Text
unfolding words_loop
split_words s = words_loop [] s

-- ratio >= threshold
abbrev pub at_least : ℕ × ℕ → ℕ × ℕ → Bool
at_least ratio threshold = leb (threshold.0 * ratio.1) (ratio.0 * threshold.1)

-- The inner loop, over the words of the text.
unfoldable pub word_found : ℕ × ℕ → Text → List Text → Bool
unfolding contains_substring sequence_matcher_ratio
word_found threshold qw [] = false
word_found threshold qw (tw ∷ t_words) =
    let rest = word_found threshold qw t_words in
    if contains_substring tw qw || at_least (sequence_matcher_ratio qw tw) threshold
    then true
    else rest

-- The outer loop, over the words of the query.
unfoldable pub words_found : ℕ × ℕ → List Text → List Text → Bool
unfolding word_found
words_found threshold [] t_words = true
words_found threshold (qw ∷ q_words) t_words =
    let rest = words_found threshold q_words t_words in
    if word_found threshold qw t_words then rest else false

-- `to_lower` is strings.ToLower.
module _ (to_lower : Text → Text) where
  unfoldable pub fuzzy_match_threshold : Text → Text → ℕ × ℕ → Bool
  unfolding contains_substring words_found split_words
  fuzzy_match_threshold query text threshold =
      let q = to_lower query in
      let t = to_lower text in
      if is_empty text
      then false
      else if contains_substring t q
      then true
      else if ltb (length q) 3
      then false
      else words_found threshold (split_words q) (split_words t)

  unfoldable pub fuzzy_match : Text → Text → Bool
  unfolding fuzzy_match_threshold
  fuzzy_match query text = fuzzy_match_threshold query text (3, 5)

-- nullStr
unfoldable pub null_str : Option Text → Text
null_str none = []
null_str (some s) = s

-- jidPhone
unfoldable pub jid_phone : Text → Text
unfolding index_substring
jid_phone jid = elim (index_substring jid (64 ∷ [])) [
  | none ↦ jid
  | some i ↦ if ltb 0 i then take i jid else jid
]
