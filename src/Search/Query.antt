-- ===== src/Search/Query.antt =====
-- sanitizeFTSQuery of src/search_store.go, on texts as sequences of runes.
pub mod Laws
use mcpyeahyouknowme.Prelude.{
  ℕ, suc, ◌+◌, Bool, true, false, not, ◌||◌, List, [], ◌∷◌, ◌++◌, map, keep, if◌then◌else◌, ◌==◌,
  nat_eq, leb, length,
}
use mcpyeahyouknowme.Sources.Text.{Text, codes, trim_space, is_empty, join, byte_len}

abbrev pub quotation_mark : ℕ
quotation_mark = 34

-- strings.ReplaceAll(t, `"`, `""`)
unfoldable pub double_quotes : Text → Text
double_quotes [] = []
double_quotes (r ∷ t) =
    let rest = double_quotes t in
    if r == quotation_mark then quotation_mark ∷ quotation_mark ∷ rest else r ∷ rest

-- `is_word` holds of letters and numbers, as unicode.IsLetter and unicode.IsNumber tell them.
module _ (is_word : ℕ → Bool) where
  -- strings.FieldsFunc; `token` is the field so far.
  unfoldable pub fields_func : Text → Text → List Text
  fields_func token [] = if is_empty token then [] else token ∷ []
  fields_func token (r ∷ t) = elim (is_word r) [
    | true ↦ fields_func (token ++ (r ∷ [])) t
    | false ↦ if is_empty token then fields_func [] t else token ∷ fields_func [] t
  ]

  unfoldable pub significant : List Text → List Text
  significant tokens =
      let long = keep (λ tok. leb 2 (byte_len tok)) tokens in
      if leb (length long) 0 then tokens else long

  abbrev pub term : Text → Text
  term token = quotation_mark ∷ (double_quotes token ++ (quotation_mark ∷ codes "*"))

  -- sanitizeFTSQuery, from the tokens of the query
  unfoldable pub fts_expression : Text → List Text → Text
  unfolding double_quotes significant
  fts_expression query [] =
      quotation_mark ∷ (double_quotes (trim_space query) ++ (quotation_mark ∷ []))
  fts_expression query (tok ∷ tokens) = join (codes " OR ") (map term (significant (tok ∷ tokens)))

  unfoldable pub sanitize_fts_query : Text → Text
  unfolding fts_expression fields_func
  sanitize_fts_query query = fts_expression query (fields_func [] query)
