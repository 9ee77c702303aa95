-- ===== src/Search/Results/Laws.antt =====
-- What a search may answer: rows of the index that pass the filters, not more than the limit.
use mcpyeahyouknowme.Prelude.{
  String, ℕ, zero, suc, min, ◌*◌, ◌≡◌, refl, sym, ◌∙◌, ap, Bool, true, false, Bool-cases, inl, inr,
  Option, none, some, List, [], ◌∷◌, keep, take, length, length-take, All, arith, if◌then◌else◌,
  ◌==◌, string_eq,
}
use mcpyeahyouknowme.Prelude.Int.{ℤ}
use mcpyeahyouknowme.Sources.Text.{Text}
use mcpyeahyouknowme.Search.Tables.{Key, Row, Db}
use mcpyeahyouknowme.Search.Exec.{ok}
use mcpyeahyouknowme.Search.Query.{sanitize_fts_query}
use mcpyeahyouknowme.Search.Results.{
  Float, Filters, RankedEntry, SearchResult, Outside, find_row, timestamp_passes, passes, selected,
  bm25_search_entries, result_of, with_row, hydrate, load_results, answer, effective_limit, search,
}

module _ {ℓ κ} {A : Type ℓ} (P : A → Type κ) where
  take-All : (n : ℕ) (xs : List A) → All P xs → All P (take n xs)
  take-All zero xs h = tt
  take-All (suc n) [] h = tt
  take-All (suc n) (x ∷ xs) (p, ps) = (p, take-All n xs ps)

keep-All : {A : Type 0} (p : A → Bool) (xs : List A) → All (λ x. p x ≡ true) (keep p xs)
keep-All p [] = tt
keep-All p (x ∷ xs) = elim (Bool-cases (p x)) [
  | inl t ↦ rw t (t, keep-All p xs)
  | inr f ↦ rw f (keep-All p xs)
]

module _ {Score : Type 0} (float : Float Score) (out : Outside float) (db : Db) (f : Filters) where
  -- The time of a row is not before `after` and not after `before`, where these are given; a row without a time
  -- is found only if neither is.
  abbrev pub is_in_time : Option String → Bool
  is_in_time none = if f.after == "" then f.before == "" else false
  is_in_time (some ts) =
      if (if f.after == "" then true else out.text_le f.after ts)
      then (if f.before == "" then true else out.text_le ts f.before)
      else false

  -- The row has the source and the content type of the filters, where these are given, and is in time.
  abbrev pub meets : Key → Row → Bool
  meets k row =
      if (if f.source_filter == "" then true else k.source == f.source_filter)
      then (if (if f.type_filter == "" then true else k.content_type == f.type_filter)
          then is_in_time row.fields.timestamp
          else false)
      else false

  abbrev pub row_meets : Option (Key × Row) → Bool
  row_meets none = false
  row_meets (some (k, row)) = meets k row

  -- How many of the entries have a row that meets the filters.
  abbrev pub hits : List (RankedEntry Score) → ℕ
  hits [] = 0
  hits (r ∷ ranked) =
      let rest = hits ranked in
      if row_meets (find_row r.entry_id db.entries) then suc rest else rest

  -- A result made of a row of the index that meets the filters.
  abbrev pub IsHit : SearchResult Score → Type 0
  IsHit r =
      (id : ℕ) × (k : Key) × (row : Row) × (find_row id db.entries ≡ some (k, row))
      × (meets k row ≡ true)
      × (r.source ≡ k.source)
      × (r.content_type ≡ k.content_type)
      × (r.title ≡ row.fields.title)
      × (r.content ≡ row.fields.content)

  timestamp_passes-in_time : (ts : Option String) → timestamp_passes float out f ts ≡ is_in_time ts
  unfolding timestamp_passes
  timestamp_passes-in_time none = ground arith
  timestamp_passes-in_time (some ts) = ground arith

  passes-meets : (o : Option (Key × Row)) → passes float out f o ≡ row_meets o
  unfolding passes
  passes-meets none = refl
  passes-meets (some (k, row)) = ground (arith, timestamp_passes-in_time row.fields.timestamp)

  abbrev passing : RankedEntry Score → Bool
  passing r = passes float out f (find_row r.entry_id db.entries)

  abbrev Passing : RankedEntry Score → Type 0
  Passing r = passing r ≡ true

  length-keep-passing :
      (ranked : List (RankedEntry Score)) → length (keep passing ranked) ≡ hits ranked
  length-keep-passing [] = refl
  length-keep-passing (r ∷ ranked) =
      ground (arith, passes-meets (find_row r.entry_id db.entries), length-keep-passing ranked)

  with_row-IsHit :
      (id : ℕ) (score : Score) (o : Option (Key × Row)) (rest : List (SearchResult Score))
      → find_row id db.entries ≡ o
      → passes float out f o ≡ true
      → All IsHit rest
      → All IsHit (with_row float out score o rest)
        × (length (with_row float out score o rest) ≡ suc (length rest))
  unfolding with_row passes result_of
  with_row-IsHit id score none rest e p h = ground arith
  with_row-IsHit id score (some (k, row)) rest e p h =
      (((id, k, row, e, sym (passes-meets (some (k, row))) ∙ p, refl, refl, refl, refl), h), refl)

  hydrate-IsHit :
      (ranked : List (RankedEntry Score))
      → All Passing ranked
      → All IsHit (hydrate float out db ranked)
        × (length (hydrate float out db ranked) ≡ length ranked)
  unfolding hydrate
  hydrate-IsHit [] h = (tt, refl)
  hydrate-IsHit (r ∷ ranked) (p, ps) =
      let (all, same) = hydrate-IsHit ranked ps in
      let (more, longer) =
        with_row-IsHit r.entry_id r.score (find_row r.entry_id db.entries)
          (hydrate float out db ranked) refl p all in
      (more, longer ∙ ap suc same)

  -- sort.Slice only rearranges: what holds of all elements holds of all afterwards, and none is lost.
  abbrev pub Rearranges : Type 1
  Rearranges =
      (less : SearchResult Score → SearchResult Score → Bool) (rs : List (SearchResult Score))
      → (length (out.sort_slice less rs) ≡ length rs)
        × ((P : SearchResult Score → Type 0) → All P rs → All P (out.sort_slice less rs))

  -- All results are hits, and they are as many as there are hits, up to the limit.
  abbrev pub IsAnswer : ℕ → List (RankedEntry Score) → List (SearchResult Score) → Type 0
  IsAnswer limit ranked rs = All IsHit rs × (length rs ≡ min limit (hits ranked))

  kept-IsAnswer :
      Rearranges
      → (limit : ℕ) (ranked : List (RankedEntry Score))
      → IsAnswer limit ranked
          (take limit (load_results float out db (take (limit * 5) (keep passing ranked))))
  unfolding load_results
  kept-IsAnswer sorts limit ranked =
      let chosen : List (RankedEntry Score) = take (limit * 5) (keep passing ranked) in
      let (all, same) =
        hydrate-IsHit chosen
          (take-All Passing (limit * 5) (keep passing ranked) (keep-All passing ranked)) in
      let (kept, rearranged) =
        sorts (λ a b. float.less b.score a.score) (hydrate float out db chosen) in
      (
        take-All IsHit limit (load_results float out db chosen) (rearranged IsHit all),
        omega (
          arith,
          length-take limit (load_results float out db chosen),
          kept,
          same,
          length-take (limit * 5) (keep passing ranked),
          length-keep-passing ranked,
        ),
      )

pub search-IsAnswer :
    {Score : Type 0} (float : Float Score) (out : Outside float) (db : Db) (f : Filters)
    (query : Text) (limit : ℤ) (ranked : List (RankedEntry Score))
    → Rearranges float out db f
    → out.matches (sanitize_fts_query out.is_word query) db ≡ ok ranked
    → (rs : List (SearchResult Score)) × (search float out db query limit f ≡ ok rs)
      × IsAnswer float out db f (effective_limit float out limit) ranked rs
unfolding search bm25_search_entries selected answer
search-IsAnswer float out db f query limit ranked sorts e =
    let n = effective_limit float out limit in
    (
      take n (load_results float out db (take (n * 5) (keep (passing float out db f) ranked))),
      rw e refl,
      kept-IsAnswer float out db f sorts n ranked,
    )
