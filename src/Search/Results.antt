-- ===== src/Search/Results.antt =====
-- The queries of src/search_store.go: Search, bm25SearchEntries, loadResults, the multipliers and the
-- statistics. Texts of rows are read as sequences of runes. `Score` stands for float64 with its operations, and
-- what the full-text index, sort.Slice, time and encoding/json answer is a parameter.
pub mod Laws
use mcpyeahyouknowme.Prelude.{
  ℕ, suc, ◌*◌, String, Bool, true, false, not, ◌&&◌, ◌||◌, Option, none, some, List, [], ◌∷◌, ◌++◌,
  keep, take, length, if◌then◌else◌, ◌==◌, string_eq, nat_eq, leb, ltb,
}
use mcpyeahyouknowme.Prelude.Int.{ℤ, pos, negsuc}
use mcpyeahyouknowme.Prelude.Dict.{Dict, lookup}
use mcpyeahyouknowme.Sources.Text.{Text, codes, has_prefix}
use mcpyeahyouknowme.Search.Tables.{Key, Fields, Row, Db}
use mcpyeahyouknowme.Search.Exec.{Result, ok, err}
use mcpyeahyouknowme.Search.Weights.{weight_of, search_metadata_hint}
use mcpyeahyouknowme.Search.Query.{sanitize_fts_query}

-- float64; `decimal n d` is the constant n / d.
pub record Float (Score : Type 0) : Type 0 where
  pub decimal : ℕ → ℕ → Score
  pub add : Score → Score → Score
  pub mul : Score → Score → Score
  pub neg : Score → Score
  pub div : Score → Score → Score
  pub exp : Score → Score
  pub abs : Score → Score
  pub less : Score → Score → Bool

-- The arguments of Search but for the query and the limit; the empty text is no filter.
pub record Filters : Type 0 where
  pub source_filter : String
  pub type_filter : String
  pub after : String
  pub before : String

pub record RankedEntry (Score : Type 0) : Type 0 where
  pub entry_id : ℕ
  pub score : Score

pub record SearchResult (Score : Type 0) : Type 0 where
  pub source : String
  pub content_type : String
  pub title : String
  pub content : String
  pub score : Score
  pub metadata : Option String
  pub metadata_hint : String

-- The row with this id, in search_entries.
unfoldable pub find_row : ℕ → Dict Key Row → Option (Key × Row)
find_row id [] = none
find_row id ((k, row) ∷ rows) = if row.id == id then some (k, row) else find_row id rows

module _ {Score : Type 0} (float : Float Score) where
  -- 1 + 3*exp(-age/2.5) + 0.5*exp(-age/90) + 1.5*exp(-age/700), from the age in days
  unfoldable pub recency_multiplier : Option Score → Score
  recency_multiplier none = float.decimal 1 1
  recency_multiplier (some since) =
      let zero : Score = float.decimal 0 1 in
      let age_days : Score = if float.less since zero then zero else since in
      let decay : Score → Score = λ days. float.exp (float.div (float.neg age_days) days) in
      float.add
        (float.add
          (float.add (float.decimal 1 1)
            (float.mul (float.decimal 3 1) (decay (float.decimal 5 2))))
          (float.mul (float.decimal 1 2) (decay (float.decimal 90 1))))
        (float.mul (float.decimal 3 2) (decay (float.decimal 700 1)))

  unfoldable pub future_proximity_multiplier : Option Score → Score
  future_proximity_multiplier none = float.decimal 1 1
  future_proximity_multiplier (some since) =
      let zero : Score = float.decimal 0 1 in
      let offset_days : Score = float.neg since in
      let abs_days : Score = float.abs offset_days in
      let future_bias : Score = if float.less zero offset_days then float.decimal 3 2 else zero in
      let decay : Score → Score = λ days. float.exp (float.div (float.neg abs_days) days) in
      float.add
        (float.add (float.add (float.decimal 1 1) future_bias)
          (float.mul (float.decimal 4 1) (decay (float.decimal 3 1))))
        (float.mul (float.decimal 1 1) (decay (float.decimal 30 1)))

  -- `status` is the status in the metadata, `none` without metadata or if they do not parse.
  unfoldable pub task_status_multiplier : Option String → Score
  task_status_multiplier none = float.decimal 1 1
  task_status_multiplier (some status) =
      if status == "needsAction"
      then float.decimal 3 2
      else if status == "completed"
      then float.decimal 3 5
      else float.decimal 1 1

  -- What the packages outside the repository answer.
  pub record Outside : Type 0 where
    -- the rows that match an expression, in the order of their BM25 score, or an error
    pub matches : Text → Db → Result (List (RankedEntry Score))
    -- the comparison of texts in SQLite
    pub text_le : String → String → Bool
    -- the age in days of a stored time, `none` if it does not parse
    pub age_days : String → Option Score
    -- the status in the metadata of a task
    pub status_of : String → Option String
    pub is_word : ℕ → Bool
    pub sort_slice :
        (SearchResult Score → SearchResult Score → Bool)
        → List (SearchResult Score)
        → List (SearchResult Score)

  module _ (out : Outside) where
    timestamp_passes : Filters → Option String → Bool
    timestamp_passes f none = f.after == "" && f.before == ""
    timestamp_passes f (some ts) =
        (f.after == "" || out.text_le f.after ts) && (f.before == "" || out.text_le ts f.before)

    -- The conditions that bm25SearchEntries adds to its query.
    unfoldable pub passes : Filters → Option (Key × Row) → Bool
    unfolding timestamp_passes
    passes f none = false
    passes f (some (k, row)) =
        (f.source_filter == "" || k.source == f.source_filter)
        && ((f.type_filter == "" || k.content_type == f.type_filter)
            && timestamp_passes f row.fields.timestamp)

    -- The conditions and the LIMIT, on what matches.
    unfoldable pub selected :
        Db → ℕ → Filters → Result (List (RankedEntry Score)) → Result (List (RankedEntry Score))
    unfolding passes find_row
    selected db limit f (err e) = err "bm25 search query"
    selected db limit f (ok ranked) =
        ok (take limit (keep (λ r. passes f (find_row r.entry_id db.entries)) ranked))

    unfoldable pub bm25_search_entries : Db → Text → ℕ → Filters → Result (List (RankedEntry Score))
    unfolding selected
    bm25_search_entries db query limit f =
        selected db limit f (out.matches (sanitize_fts_query out.is_word query) db)

    -- The time of a row, if it is there and parses.
    time_of : Option String → Option Score
    time_of none = none
    time_of (some ts) = if ts == "" then none else out.age_days ts

    meta_of : Option String → Option String
    meta_of none = none
    meta_of (some m) = if m == "" then none else some m

    status_in : Option String → Option String
    status_in none = none
    status_in (some m) = out.status_of m

    unfoldable pub temporal_multiplier : String → Option String → Option String → Score
    unfolding time_of meta_of status_in recency_multiplier future_proximity_multiplier
        task_status_multiplier
    temporal_multiplier content_type ts metadata =
        if has_prefix (codes content_type) (codes "calendar_")
        then future_proximity_multiplier (time_of ts)
        else if content_type == "task"
        then float.mul (future_proximity_multiplier (time_of ts))
            (task_status_multiplier (status_in (meta_of metadata)))
        else recency_multiplier (time_of ts)

    -- The result of one row.
    unfoldable pub result_of : Score → Key → Row → SearchResult Score
    unfolding temporal_multiplier meta_of
    result_of score k row = record {
      source = k.source;
      content_type = k.content_type;
      title = row.fields.title;
      content = row.fields.content;
      score =
          float.mul (float.mul (float.neg score) (float.decimal (weight_of k.content_type) 10))
            (temporal_multiplier k.content_type row.fields.timestamp row.fields.metadata);
      metadata = meta_of row.fields.metadata;
      metadata_hint = search_metadata_hint k.source k.content_type;
    }

    -- The results of the ranked entries, in their order; an id without a row has none.
    unfoldable pub with_row :
        Score → Option (Key × Row) → List (SearchResult Score) → List (SearchResult Score)
    unfolding result_of
    with_row score none rest = rest
    with_row score (some (k, row)) rest = result_of score k row ∷ rest

    unfoldable pub hydrate : Db → List (RankedEntry Score) → List (SearchResult Score)
    unfolding with_row find_row
    hydrate db [] = []
    hydrate db (r ∷ ranked) = with_row r.score (find_row r.entry_id db.entries) (hydrate db ranked)

    unfoldable pub load_results : Db → List (RankedEntry Score) → List (SearchResult Score)
    unfolding hydrate
    load_results db ranked = out.sort_slice (λ a b. float.less b.score a.score) (hydrate db ranked)

    unfoldable pub effective_limit : ℤ → ℕ
    effective_limit (pos n) = if leb n 0 then 20 else n
    effective_limit (negsuc n) = 20

    unfoldable pub answer :
        Db → ℕ → Result (List (RankedEntry Score)) → Result (List (SearchResult Score))
    unfolding load_results
    answer db limit (err e) = err e
    answer db limit (ok ranked) = ok (take limit (load_results db ranked))

    unfoldable pub search : Db → Text → ℤ → Filters → Result (List (SearchResult Score))
    unfolding bm25_search_entries answer effective_limit
    search db query limit f =
        let n = effective_limit limit in answer db n (bm25_search_entries db query (n * 5) f)

pub record SearchIndexStats : Type 0 where
  pub entries : ℕ
  pub fts_healthy : Bool

-- IndexStats, from SELECT COUNT(*) of the two tables
unfoldable pub index_stats : ℕ → ℕ → SearchIndexStats
index_stats entries fts_count = record {
  entries = entries;
  fts_healthy = (entries == 0 && fts_count == 0) || (ltb 0 entries && ltb 0 fts_count);
}
