-- ===== src/Sources/Gmail/Visible.antt =====
-- The visible body of a message: deriveVisibleBody and its helpers in src/sources/gsuite/app_gmail.go. Texts
-- are sequences of runes, so strings.ToValidUTF8 changes nothing; the regular expressions are parameters.
pub mod Laws
use mcpyeahyouknowme.Prelude.{
  ℕ, zero, suc, ◌*◌, Bool, true, false, not, ◌&&◌, ◌||◌, List, [], ◌∷◌, ◌++◌, if◌then◌else◌, ◌==◌,
  nat_eq, leb, ltb,
}
use mcpyeahyouknowme.Sources.Text.{Text, trim_space, is_empty, has_prefix, join, byte_len}

-- strings.ReplaceAll of "\r\n" and then of "\r" by "\n"
unfoldable pub normalize_lines : Text → Text
normalize_lines [] = []
normalize_lines (r ∷ []) = (if r == 13 then 10 else r) ∷ []
normalize_lines (r ∷ s ∷ t) =
    let rest = normalize_lines (s ∷ t) in
    if r == 13 then (if s == 10 then rest else 10 ∷ rest) else r ∷ rest

-- strings.Split by one rune; `part` is the part so far.
unfoldable pub split_on : ℕ → Text → Text → List Text
split_on sep part [] = part ∷ []
split_on sep part (r ∷ t) = elim (r == sep) [
  | true ↦ part ∷ split_on sep [] t
  | false ↦ split_on sep (part ++ (r ∷ [])) t
]

abbrev pub rev_onto : List Text → List Text → List Text
rev_onto done [] = done
rev_onto done (line ∷ lines) = rev_onto (line ∷ done) lines

abbrev pub is_blank : Text → Bool
is_blank line = is_empty (trim_space line)

abbrev pub is_quoted : Text → Bool
is_quoted line = has_prefix (trim_space line) (62 ∷ [])

unfoldable pub has_authored_content : List Text → Bool
has_authored_content [] = false
has_authored_content (line ∷ lines) =
    if not (is_blank line) && not (is_quoted line) then true else has_authored_content lines

unfoldable pub trim_trailing_blank_lines : List Text → List Text
trim_trailing_blank_lines [] = []
trim_trailing_blank_lines (line ∷ lines) = elim (trim_trailing_blank_lines lines) [
  | [] ↦ if is_blank line then [] else line ∷ []
  | ◌∷◌ next rest ↦ line ∷ next ∷ rest
]

-- The loop of trimTrailingQuotedBlock, from the last line; the reversed lines up to i are left.
unfoldable pub quoted_scan : List Text → Bool → List Text → List Text
unfolding has_authored_content trim_trailing_blank_lines
quoted_scan lines saw_quoted [] = if saw_quoted then [] else trim_trailing_blank_lines lines
quoted_scan lines saw_quoted (line ∷ before) =
    let above = quoted_scan lines saw_quoted before in
    let quoted = quoted_scan lines true before in
    let kept = rev_onto [] (line ∷ before) in
    if is_blank line
    then above
    else if is_quoted line
    then quoted
    else if saw_quoted && has_authored_content kept
    then trim_trailing_blank_lines kept
    else trim_trailing_blank_lines lines

unfoldable pub trim_trailing_quoted_block : List Text → List Text
unfolding quoted_scan
trim_trailing_quoted_block lines = quoted_scan lines false (rev_onto [] lines)

-- shouldFallbackToRaw
unfoldable pub too_short : Text → Text → Bool
too_short raw visible =
    if is_empty raw
    then false
    else if is_empty visible
    then true
    else if leb 200 (byte_len raw) && ltb (byte_len visible) 20
    then true
    else leb 500 (byte_len raw) && ltb (byte_len visible * 10) (byte_len raw)

unfoldable pub should_fallback_to_raw : Text → Text → Bool
unfolding too_short
should_fallback_to_raw raw visible = too_short (trim_space raw) (trim_space visible)

-- The regular expressions.
pub record Patterns : Type 0 where
  pub reply_boundary : Text → Bool
  pub forwarded_boundary : Text → Bool
  pub header_line : Text → Bool
  pub mobile_signature : Text → Bool

module _ (re : Patterns) where
  abbrev pub is_strong_reply_boundary : Text → Bool
  is_strong_reply_boundary line = re.reply_boundary line || re.forwarded_boundary line

  -- The loop of isQuotedHeaderBlock over at most `n` lines.
  unfoldable pub matched_headers : ℕ → ℕ → List Text → ℕ
  matched_headers zero matched lines = matched
  matched_headers (suc n) matched [] = matched
  matched_headers (suc n) matched (line ∷ lines) =
      let skipped = matched_headers n matched lines in
      let more = matched_headers n (suc matched) lines in
      if is_blank line
      then (if ltb 0 matched then matched else skipped)
      else if re.header_line (trim_space line)
      then more
      else matched

  unfoldable pub is_quoted_header_block : List Text → Bool
  unfolding matched_headers
  is_quoted_header_block lines = leb 2 (matched_headers 5 0 lines)

  -- The loop of stripQuotedReplyBlocks: the lines before the cut, from those before i.
  unfoldable pub before_cut : List Text → List Text → List Text
  unfolding is_quoted_header_block has_authored_content
  before_cut before [] = before
  before_cut before (line ∷ lines) =
      let on = before_cut (before ++ (line ∷ [])) lines in
      if is_blank line
      then on
      else if is_strong_reply_boundary (trim_space line) && has_authored_content before
      then before
      else if is_quoted_header_block (line ∷ lines) && has_authored_content before
      then before
      else on

  without_signature : List Text → List Text → List Text
  unfolding trim_trailing_blank_lines
  without_signature lines (last ∷ previous ∷ before) =
      if not (re.mobile_signature (trim_space last))
      then lines
      else if not (is_blank previous)
      then lines
      else trim_trailing_blank_lines (rev_onto [] before)
  without_signature lines [] = lines
  without_signature lines (last ∷ []) = lines

  unfoldable pub trim_trailing_mobile_signature : List Text → List Text
  unfolding without_signature trim_trailing_blank_lines
  trim_trailing_mobile_signature lines =
      let trimmed = trim_trailing_blank_lines lines in
      without_signature trimmed (rev_onto [] trimmed)

  unfoldable pub strip_quoted_reply_blocks : Text → Text
  unfolding before_cut trim_trailing_quoted_block trim_trailing_mobile_signature split_on
  strip_quoted_reply_blocks body =
      let kept = before_cut [] (split_on 10 [] body) in
      trim_space (join (10 ∷ []) (trim_trailing_mobile_signature (trim_trailing_quoted_block kept)))

  -- deriveVisibleBody
  unfoldable pub derive_visible_body : Text → Text
  unfolding strip_quoted_reply_blocks should_fallback_to_raw normalize_lines
  derive_visible_body raw =
      let normalized = trim_space (normalize_lines raw) in
      let visible = strip_quoted_reply_blocks normalized in
      if is_empty normalized
      then []
      else if should_fallback_to_raw normalized visible
      then normalized
      else visible

-- stripHTML; the flag is inTag.
unfoldable pub strip_tags : Bool → Text → Text
strip_tags in_tag [] = []
strip_tags in_tag (r ∷ t) =
    let inside = strip_tags true t in
    let after = strip_tags false t in
    let same = strip_tags in_tag t in
    if r == 60 then inside else if r == 62 then after else if not in_tag then r ∷ same else same

unfoldable pub strip_html : Text → Text
unfolding strip_tags
strip_html s = strip_tags false s
