-- ===== src/Tests/Queries.antt =====
-- The queries of the search store and the profile tool on small inputs.
use mcpyeahyouknowme.Search.Weights.{search_metadata_hint, weight_of}
use mcpyeahyouknowme.Prelude.Dict.{lookup}
use mcpyeahyouknowme.Prelude.{
  ℕ, ◌+◌, ◌*◌, ◌≡◌, inr, refl, Bool, true, false, none, some, List, [], ◌∷◌, ◌++◌, nat_eq,
  string_eq, ltb,
}
use mcpyeahyouknowme.Prelude.Int.{pos}
use mcpyeahyouknowme.Sources.Text.{text_eq, is_space, trim_space, byte_len, Text, codes}
use mcpyeahyouknowme.Search.Tables.{key_eq, Db, empty_db, upsert}
use mcpyeahyouknowme.Search.Exec.{ok}
use mcpyeahyouknowme.Search.Query.{sanitize_fts_query}
use mcpyeahyouknowme.Search.Query.Laws.{outside, stars, sanitize_fts_query-outside}
use mcpyeahyouknowme.Search.Results.{
  Float, Filters, RankedEntry, SearchResult, Outside, effective_limit, search,
}
use mcpyeahyouknowme.Search.Results.Laws.{Rearranges, IsAnswer, search-IsAnswer}
use mcpyeahyouknowme.Search.Tool.{search_answer}
use mcpyeahyouknowme.Search.Tool.Laws.{warning, search_answer-IsFlagged}
use mcpyeahyouknowme.Core.Tools.{untrusted_text}
use mcpyeahyouknowme.Search.Profile.{extract_note_refs}
use mcpyeahyouknowme.Search.Profile.Laws.{AreRefs, extract_note_refs-AreRefs}

abbrev is_letter : ℕ → Bool
is_letter r = ltb 64 r

quoted : sanitize_fts_query is_letter (codes "a \"OR bc") ≡ codes "\"OR\"* OR \"bc\"*"
unfolding sanitize_fts_query byte_len nat_eq
quoted = refl

sanitize_fts_query-outside_example :
    (tokens : List Text) × (outside false (sanitize_fts_query is_letter (codes "a \"OR bc"))
      ≡ some (stars tokens))
sanitize_fts_query-outside_example = sanitize_fts_query-outside is_letter (codes "a \"OR bc")

-- Whole numbers in place of floating-point ones.
abbrev whole_numbers : Float ℕ
whole_numbers = record {
  decimal = λ n d. n;
  add = λ a b. a + b;
  mul = λ a b. a * b;
  neg = λ a. a;
  div = λ a b. a;
  exp = λ a. a;
  abs = λ a. a;
  less = ltb;
}

abbrev two_rows : Db
two_rows =
    upsert (record { source = "notebook"; source_id = "a"; content_type = "note_title" })
      (record { title = "Tea"; content = "green"; metadata = none; timestamp = none })
      (upsert (record { source = "whatsapp"; source_id = "b"; content_type = "chat_name" })
        (record { title = "Team"; content = "all"; metadata = none; timestamp = none }) empty_db)

abbrev answers : Outside whole_numbers
answers = record {
  matches =
      λ query db. ok (record { entry_id = 1; score = 7 } ∷ record { entry_id = 2; score = 5 } ∷ []);
  text_le = λ a b. true;
  age_days = λ ts. none;
  status_of = λ metadata. none;
  is_word = is_letter;
  sort_slice = λ less rs. rs;
}

abbrev notes_only : Filters
notes_only = record { source_filter = "notebook"; type_filter = ""; after = ""; before = "" }

abbrev tea : SearchResult ℕ
tea = record {
  source = "notebook";
  content_type = "note_title";
  title = "Tea";
  content = "green";
  score = 100;
  metadata = none;
  metadata_hint = "metadata contains {\"path\",\"dir\"}; use path with notebook_read";
}

one_note : search whole_numbers answers two_rows (codes "tea") (pos 3) notes_only ≡ ok (tea ∷ [])
unfolding search upsert lookup key_eq string_eq nat_eq weight_of search_metadata_hint
one_note = refl

keeps_order : Rearranges whole_numbers answers two_rows notes_only
keeps_order less rs = (refl, λ P h. h)

abbrev two_matches : List (RankedEntry ℕ)
two_matches = record { entry_id = 1; score = 7 } ∷ record { entry_id = 2; score = 5 } ∷ []

search-IsAnswer_example :
    (rs : List (SearchResult ℕ)) × (search whole_numbers answers two_rows
        (codes "tea")
        (pos 3)
        notes_only
      ≡ ok rs)
    × IsAnswer whole_numbers answers two_rows notes_only
        (effective_limit whole_numbers answers (pos 3))
        two_matches
        rs
search-IsAnswer_example =
    search-IsAnswer whole_numbers answers two_rows notes_only (codes "tea") (pos 3) two_matches
      keeps_order refl

search_answer-IsFlagged_example :
    search_answer (λ t. t) (λ rs. inr (codes "[]")) (ok (tea ∷ []))
    ≡ untrusted_text (warning (λ t. t) ++ codes "[]") (codes "search")
search_answer-IsFlagged_example =
    search_answer-IsFlagged (λ t. t) (λ rs. inr (codes "[]")) [] [] tea (codes "[]")
      (inr (inr (inr refl))) refl

abbrev links : List Text
links = codes "Work" ∷ codes " work" ∷ codes "Home|Alias" ∷ []

followed :
    extract_note_refs (λ t. t) links (codes "notes/Trips.md" ∷ codes "https://a.b" ∷ [])
    ≡ codes "Work" ∷ codes "work" ∷ codes "Home|Alias" ∷ codes "Trips" ∷ []
unfolding extract_note_refs trim_space is_space nat_eq text_eq
followed = refl

extract_note_refs-AreRefs_example :
    AreRefs (λ t. t) (extract_note_refs (λ t. t) links (codes "notes/Trips.md" ∷ []))
extract_note_refs-AreRefs_example =
    extract_note_refs-AreRefs (λ t. t) links (codes "notes/Trips.md" ∷ [])
