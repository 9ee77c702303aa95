-- ===== src/Search/Query/Laws.antt =====
-- A search text cannot reach the query language of the full-text index.
use mcpyeahyouknowme.Prelude.{
  ℕ, ◌≡◌, refl, sym, ap, ◌∙◌, Bool, true, false, Bool-cases, inl, inr, Option, none, some, List, [],
  ◌∷◌, ◌++◌, map, if◌then◌else◌, ◌==◌, nat_eq, eq_refl, arith,
}
use mathlib.Core.List.{append_assoc, append-nil}
use mcpyeahyouknowme.Sources.Text.{Text, codes, trim_space, join}
use mcpyeahyouknowme.Search.Query.{
  quotation_mark, double_quotes, fields_func, significant, term, fts_expression, sanitize_fts_query,
}

-- The runes outside of quoted strings, if the last string is closed. A doubled quotation mark closes and opens.
abbrev pub outside : Bool → Text → Option Text
outside true [] = none
outside false [] = some []
outside true (r ∷ t) = if r == quotation_mark then outside false t else outside true t
outside false (r ∷ t) =
    if r == quotation_mark
    then outside true t
    else elim (outside false t) [ none ↦ none | some o ↦ some (r ∷ o) ]

-- Stars, joined by OR.
abbrev pub stars : List Text → Text
stars tokens = join (codes " OR ") (map (λ _. codes "*") tokens)

outside-close : (t : Text) → outside true (quotation_mark ∷ t) ≡ outside false t
outside-close t = ground (arith, eq_refl quotation_mark)

outside-double_quotes : (t rest : Text) → outside true (double_quotes t ++ rest) ≡ outside true rest
unfolding double_quotes
outside-double_quotes [] rest = refl
outside-double_quotes (r ∷ t) rest =
    ground (arith, outside-double_quotes t rest, eq_refl quotation_mark)

outside-quoted :
    (t rest : Text)
    → outside false (quotation_mark ∷ (double_quotes t ++ (quotation_mark ∷ rest)))
      ≡ outside false rest
outside-quoted t rest =
    ground (arith, outside-double_quotes t (quotation_mark ∷ rest), eq_refl quotation_mark)

abbrev has_quote : Text → Bool
has_quote [] = false
has_quote (r ∷ t) = if r == quotation_mark then true else has_quote t

outside-plain :
    (t rest o : Text)
    → has_quote t ≡ false
    → outside false rest ≡ some o
    → outside false (t ++ rest) ≡ some (t ++ o)
outside-plain [] rest o h e = e
outside-plain (r ∷ t) rest o h e = elim (Bool-cases (r == quotation_mark)) [
  | inl q ↦ ground (arith, q)
  | inr q ↦ ground (arith, q, outside-plain t rest o (ground arith) e)
]

plain : (has_quote (codes "*") ≡ false) × (has_quote (codes " OR ") ≡ false)
unfolding nat_eq
plain = (refl, refl)

term-append :
    (is_word : ℕ → Bool) (token rest : Text)
    → term is_word token ++ rest
      ≡ quotation_mark ∷ (double_quotes token ++ (quotation_mark ∷ (codes "*" ++ rest)))
term-append is_word token rest =
    ap (λ t. quotation_mark ∷ t)
      (append_assoc (double_quotes token) (quotation_mark ∷ codes "*") rest)

outside-term :
    (is_word : ℕ → Bool) (token rest o : Text)
    → outside false rest ≡ some o
    → outside false (term is_word token ++ rest) ≡ some (codes "*" ++ o)
outside-term is_word token rest o e =
    ap (outside false) (term-append is_word token rest)
    ∙ (outside-quoted token (codes "*" ++ rest) ∙ outside-plain (codes "*") rest o (plain.0) e)

outside-terms :
    (is_word : ℕ → Bool) (tokens : List Text)
    → outside false (join (codes " OR ") (map (term is_word) tokens)) ≡ some (stars tokens)
outside-terms is_word [] = refl
outside-terms is_word (tok ∷ []) =
    ap (outside false) (sym (append-nil (term is_word tok))) ∙ outside-term is_word tok [] [] refl
outside-terms is_word (tok ∷ u ∷ tokens) =
    outside-term is_word tok (codes " OR " ++ join (codes " OR ") (map (term is_word) (u ∷ tokens)))
      (codes " OR " ++ stars (u ∷ tokens))
      (outside-plain (codes " OR ") (join (codes " OR ") (map (term is_word) (u ∷ tokens)))
        (stars (u ∷ tokens)) (plain.1) (outside-terms is_word (u ∷ tokens)))

fts_expression-outside :
    (is_word : ℕ → Bool) (query : Text) (found : List Text)
    → (tokens : List Text) × (outside false (fts_expression is_word query found)
        ≡ some (stars tokens))
unfolding fts_expression
fts_expression-outside is_word query [] = ([], outside-quoted (trim_space query) [])
fts_expression-outside is_word query (tok ∷ found) =
    (significant is_word (tok ∷ found), outside-terms is_word (significant is_word (tok ∷ found)))

-- Whatever the search text is, sanitize_fts_query closes every quoted string, and what it leaves outside of
-- quoted strings is nothing or the prefix stars of some terms joined by OR: no rune of the search text is
-- there.
pub sanitize_fts_query-outside :
    (is_word : ℕ → Bool) (query : Text)
    → (tokens : List Text) × (outside false (sanitize_fts_query is_word query)
        ≡ some (stars tokens))
unfolding sanitize_fts_query
sanitize_fts_query-outside is_word query =
    fts_expression-outside is_word query (fields_func is_word [] query)
