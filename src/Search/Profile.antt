-- ===== src/Search/Profile.antt =====
-- The profile tool: src/profile_mcp.go. The matches of the two regular expressions, sort.Slice, strings.ToLower,
-- strings.EqualFold and encoding/json are parameters.
pub mod Laws
use mcpyeahyouknowme.Prelude.{
  ℕ, ◌-◌, String, Bool, true, false, not, ◌&&◌, ◌||◌, ◌⊎◌, Option, none, some, List, [], ◌∷◌, ◌++◌,
  if◌then◌else◌, ◌==◌, contains, string_eq, nat_eq, leb, length, take,
}
use mcpyeahyouknowme.Prelude.Int.{ℤ, pos}
use mcpyeahyouknowme.Prelude.Dict.{Dict, lookup}
use mcpyeahyouknowme.Sources.Text.{Text, codes, text_eq, trim_space, is_empty, has_prefix, join}
use mcpyeahyouknowme.Sources.Notebook.Files.{ext}
use mcpyeahyouknowme.Sources.Notebook.Entries.{base}
use mcpyeahyouknowme.Search.Exec.{Result, ok, err}
use mcpyeahyouknowme.Search.Results.{SearchResult}
use mcpyeahyouknowme.Search.Tool.{search_result_source_may_carry_injection}
use mcpyeahyouknowme.Core.Tools.{ToolResult, tool_error, json_result, untrusted_json_result}

abbrev pub title_to_content_type : Dict String String
title_to_content_type =
    ("note_title", "note_content")
    ∷ ("pdf_title", "pdf_content")
    ∷ ("document_title", "document_content")
    ∷ ("spreadsheet_title", "spreadsheet_content")
    ∷ ("presentation_title", "presentation_content")
    ∷ []

pub record ProfileSection : Type 0 where
  pub title : String
  pub content : Text
  pub source : String

pub record ProfileResult : Type 0 where
  pub title : String
  pub content : Text
  pub source : String
  pub sections : List ProfileSection
  pub skipped_refs : List Text

some_section_may_carry : List ProfileSection → Bool
some_section_may_carry [] = false
some_section_may_carry (sec ∷ secs) =
    search_result_source_may_carry_injection sec.source || some_section_may_carry secs

unfoldable pub profile_needs_untrusted_warning : ProfileResult → Bool
unfolding some_section_may_carry
profile_needs_untrusted_warning r =
    search_result_source_may_carry_injection r.source || some_section_may_carry r.sections

-- filepath.Base
drop_separators : Text → Text
drop_separators [] = []
drop_separators (r ∷ t) =
    let rest = drop_separators t in if is_empty rest && r == 47 then [] else r ∷ rest

unfoldable pub file_base : Text → Text
unfolding drop_separators
file_base path =
    let named = drop_separators path in
    if is_empty path then codes "." else if is_empty named then codes "/" else base named

unfoldable pub stem_link_path : Text → Text
unfolding file_base
stem_link_path path = let b = file_base path in take (length b - length (ext b)) b

-- The keys in `seen`, and the references so far.
abbrev pub Refs : Type 0
Refs = List Text × List Text

module _ (to_lower : Text → Text) where
  unfoldable pub add_ref : Text → Refs → Refs
  add_ref name (seen, refs) =
      if not (is_empty name) && not (contains seen (to_lower name))
      then (to_lower name ∷ seen, refs ++ (name ∷ []))
      else (seen, refs)

  -- The loop over the matches m[1] of wikiLinkRe; the flag says that the loop returned.
  unfoldable pub wiki_loop : List Text → Refs → Refs × Bool
  unfolding add_ref
  wiki_loop [] s = (s, false)
  wiki_loop (m ∷ ms) s =
      let s' = add_ref (trim_space m) s in
      let rest = wiki_loop ms s' in if leb 5 (length (s'.1)) then (s', true) else rest

  is_url : Text → Bool
  is_url link = has_prefix link (codes "http://") || has_prefix link (codes "https://")

  -- The loop over the matches m[2] of mdLinkRe.
  unfoldable pub md_loop : List Text → Refs → Refs
  unfolding add_ref is_url stem_link_path
  md_loop [] s = s
  md_loop (m ∷ ms) s =
      let s' = add_ref (stem_link_path (trim_space m)) s in
      let rest = md_loop ms s' in
      let skipped = md_loop ms s in
      if is_url (trim_space m) then skipped else if leb 5 (length (s'.1)) then s' else rest

  unfoldable pub extract_note_refs : List Text → List Text → List Text
  unfolding wiki_loop md_loop
  extract_note_refs wiki md =
      let (s, returned) = wiki_loop wiki ([], []) in if returned then s.1 else (md_loop md s).1

-- profileToolStore: Search with the arguments query, limit, source and content type
abbrev pub ProfileToolStore : Type 0 → Type 0
ProfileToolStore Score = Text → ℤ → Text → Text → Result (List (SearchResult Score))

-- A note, with an empty title if there is none: title, content and source.
abbrev pub Note : Type 0
Note = String × Text × String

pub record Outside : Type 0 where
  pub to_lower : Text → Text
  pub equal_fold : Text → Text → Bool
  -- the number `chunk` in the metadata, 0 where there is none
  pub chunk_of : Option String → ℤ
  pub sort_slice : List (ℤ × Text) → List (ℤ × Text)
  pub wiki_links : Text → List Text
  pub md_links : Text → List Text

module _ {Score : Type 0} (out : Outside) (store : ProfileToolStore Score) where
  -- The first loop of fetchNote, with the best result so far.
  unfoldable pub best_of :
      Text → List (SearchResult Score) → Option (SearchResult Score) → Option (SearchResult Score)
  best_of query [] best = best
  best_of query (r ∷ rs) best =
      let first : Option (SearchResult Score) = elim best [ none ↦ some r | some b ↦ some b ] in
      elim (lookup r.content_type title_to_content_type) [
        | none ↦ best_of query rs best
        | some ty ↦ if out.equal_fold (codes r.title) query then some r else best_of query rs first
      ]

  unfoldable pub chunks_in : String → List (SearchResult Score) → List (ℤ × Text)
  chunks_in note_title [] = []
  chunks_in note_title (r ∷ rs) =
      let rest = chunks_in note_title rs in
      if out.equal_fold (codes r.title) (codes note_title)
      then (out.chunk_of r.metadata, codes r.content) ∷ rest
      else rest

  parts_of : List (ℤ × Text) → List Text
  parts_of [] = []
  parts_of ((i, content) ∷ chunks) =
      let rest = parts_of chunks in if is_empty (trim_space content) then rest else content ∷ rest

  unfoldable pub note_of : SearchResult Score → Result (List (SearchResult Score)) → Result Note
  unfolding chunks_in parts_of
  note_of best (err e) = err e
  note_of best (ok found) = ok (
    best.title,
    join (codes "\n\n") (parts_of (out.sort_slice (chunks_in best.title found))),
    best.source,
  )

  content_type_of : String → String
  content_type_of title_type = elim (lookup title_type title_to_content_type) [
    | none ↦ ""
    | some ty ↦ ty
  ]

  fetch_best : Option (SearchResult Score) → Result Note
  unfolding note_of content_type_of
  fetch_best none = ok ("", [], "")
  fetch_best (some best) = note_of best (
      store (codes best.title) (pos 50) (codes best.source)
        (codes (content_type_of best.content_type)))

  fetch_from : Text → Result (List (SearchResult Score)) → Result Note
  unfolding fetch_best best_of
  fetch_from query (err e) = err e
  fetch_from query (ok found) = fetch_best (best_of query found none)

  unfoldable pub fetch_note : Text → Result Note
  unfolding fetch_from
  fetch_note query = fetch_from query (store query (pos 10) [] [])

  -- What becomes of the result by what fetchNote answers for one reference.
  unfoldable pub add_section : Text → Result Note → ProfileResult → ProfileResult
  add_section ref (err e) result = record result {
    skipped_refs = result.skipped_refs ++ (ref ∷ []);
  }
  add_section ref (ok (title, content, source)) result =
      if title == ""
      then record result { skipped_refs = result.skipped_refs ++ (ref ∷ []) }
      else record result {
        sections =
            result.sections ++ (record { title = title; content = content; source = source } ∷ []);
      }

  -- The loop over the references.
  unfoldable pub sections_loop : List Text → List Text → ProfileResult → ProfileResult
  unfolding fetch_note add_section
  sections_loop [] seen result = result
  sections_loop (ref ∷ refs) seen result =
      let key = out.to_lower ref in
      let same = sections_loop refs seen result in
      let more = sections_loop refs (key ∷ seen) (add_section ref (fetch_note ref) result) in
      if contains seen key then same else more

  -- buildProfile, from the note that it found
  unfoldable pub profile_from : Result Note → Result ProfileResult
  unfolding sections_loop extract_note_refs
  profile_from (err e) = err e
  profile_from (ok (title, content, source)) =
      if title == ""
      then err "no 'About Me' note found in connected data sources"
      else ok (
          sections_loop
            (extract_note_refs out.to_lower (out.wiki_links content) (out.md_links content))
            (out.to_lower (codes title) ∷ [])
            (record {
              title = title;
              content = content;
              source = source;
              sections = [];
              skipped_refs = [];
            }))

  unfoldable pub build_profile : Result ProfileResult
  unfolding profile_from fetch_note
  build_profile = profile_from (fetch_note (codes "About Me"))

  -- The handler that RegisterProfileTool registers, from what buildProfile answers.
  unfoldable pub profile_answer :
      (Text → Text) → (ProfileResult → Text ⊎ Text) → Result ProfileResult → ToolResult
  unfolding profile_needs_untrusted_warning
  profile_answer quote json (err e) = tool_error (codes e)
  profile_answer quote json (ok result) =
      if profile_needs_untrusted_warning result
      then untrusted_json_result quote (json result) (codes "profile_about_me")
      else json_result (json result)
