-- ===== src/Sources/Notebook/Entries.antt =====
-- From a file to its entries in the search index: extractFile and buildSearchEntries of
-- src/sources/notebook/scanner.go, with stemName, wordCount and extractPDF of extract.go and itoa of source.go.
pub mod Itoa
use mcpyeahyouknowme.Prelude.{
  ℕ, zero, suc, ◌+◌, ◌-◌, ◌/◌, ◌%◌, Bool, true, false, not, ◌&&◌, ◌||◌, Option, none, some, List,
  [], ◌∷◌, ◌++◌, if◌then◌else◌, ◌==◌, nat_eq, ltb, length, take,
}
use mcpyeahyouknowme.Sources.Text.{Text, codes, text_eq, is_empty, is_space, trim_space, join}
use mcpyeahyouknowme.Sources.Notebook.ChunkText.{chunk_text}
use mcpyeahyouknowme.Sources.Notebook.Files.{Found, CacheRow, ext}
use mcpyeahyouknowme.Sources.Notebook.Entries.Itoa.{itoa}

-- filepath.Base of a path that does not end in a separator
abbrev pub base : Text → Text
base [] = []
base (r ∷ t) = elim (r == 47) [
  | true ↦ base t
  | false ↦ (let rest = base t in if length rest == length t then r ∷ t else rest)
]

-- stemName
abbrev pub stem_name : Text → Text
stem_name filename = let b = base filename in take (length b - length (ext b)) b

-- len(strings.Fields(s)); the flag says whether the rune before was in a word
unfoldable pub word_count : Bool → Text → ℕ
word_count inside [] = 0
word_count inside (r ∷ t) =
    let n = word_count (not (is_space r)) t in if not (is_space r) && not inside then suc n else n

-- What lies outside: file contents, PDF text, text recognition, JSON, markdown patterns, relative paths.
pub record Outside : Type 0 where
  pub read_file : Text → Option Text
  pub pdf_text : Text → Option Text
  pub has_analyzer : Bool
  pub ocr_pdf_pages : Text → Option Text
  pub analyze_image : Text → Option (Text × List Text)
  pub labels_json : List Text → Text
  pub parse_labels : Text → Option (List Text)
  pub clean_markdown : Text → Text
  pub rel : Text → Text → Option Text

-- core.SearchEntry, with the metadata as it is before json.Marshal.
pub record Meta : Type 0 where
  pub path : Text
  pub dir : Text
  pub chunk : Option ℕ
  pub labels : Option Text

pub record Entry : Type 0 where
  pub source : Text
  pub source_id : Text
  pub content_type : Text
  pub title : Text
  pub content : Text
  pub metadata : Meta
  pub timestamp : ℕ

module _ (out : Outside) where
  -- The content that extractPDF returns; its title is the stem of the file's name.
  unfoldable pub extract_pdf : Text → Text
  unfolding word_count
  extract_pdf path = elim (out.pdf_text path) [
    | none ↦ []
    | some plain ↦
        let text = trim_space plain in
        if ltb (word_count false text) 10 && out.has_analyzer
        then elim (out.ocr_pdf_pages path) [
          | none ↦ text
          | some ocr ↦ if is_empty (trim_space ocr) then text else trim_space ocr
        ]
        else text
  ]

  -- The row before its type is looked at.
  abbrev pub blank_row : ℕ → Text → Found → CacheRow
  blank_row now dir f = record {
    path = f.path;
    dir = dir;
    mod_time = f.info.mod_time;
    size = f.info.size;
    file_type = f.file_type;
    title = [];
    content = [];
    labels = codes "[]";
    cached_at = now;
  }

  unfoldable pub image_row : CacheRow → Text → CacheRow
  image_row row path =
      let named = record row { title = stem_name path } in
      if out.has_analyzer
      then elim (out.analyze_image path) [
        | none ↦ named
        | some (text, labels) ↦ record named {
          content = text;
          labels = if length labels == 0 then row.labels else out.labels_json labels;
        }
      ]
      else named

  unfoldable pub extract_file : ℕ → Text → Found → CacheRow
  extract_file now dir f =
      let row = blank_row now dir f in
      if f.file_type == codes "md"
      then elim (out.read_file f.path) [
        | none ↦ record row { title = stem_name f.path }
        | some text ↦ record row { title = stem_name f.path; content = text }
      ]
      else if f.file_type == codes "pdf"
      then record row { title = stem_name f.path; content = extract_pdf f.path }
      else if f.file_type == codes "image"
      then image_row row f.path
      else row

  -- relativePath
  abbrev pub relative_path : Text → Text → Text
  relative_path dir path = elim (out.rel dir path) [ none ↦ path | some r ↦ r ]

  -- The chunks of chunkText, which always ends.
  abbrev pub chunks_of : Text → List Text
  chunks_of text = elim (chunk_text text) [ none ↦ [] | some chunks ↦ chunks ]

  -- The loop over the chunks, from index `i`.
  unfoldable pub chunk_entries : CacheRow → Text → Text → ℕ → List Text → List Entry
  chunk_entries row source content_type i [] = []
  chunk_entries row source content_type i (chunk ∷ chunks) =
      record {
        source = source;
        source_id = row.path ++ (codes "#chunk" ++ itoa i);
        content_type = content_type;
        title = row.title;
        content = chunk;
        metadata = record {
          path = relative_path row.dir row.path;
          dir = row.dir;
          chunk = some i;
          labels = none;
        };
        timestamp = row.mod_time;
      }
      ∷ chunk_entries row source content_type (suc i) chunks

  unfoldable pub build_text_entries : CacheRow → Text → Text → Text → List Entry
  build_text_entries row source title_type content_type =
      record {
        source = source;
        source_id = row.path ++ codes "#title";
        content_type = title_type;
        title = row.title;
        content = row.title;
        metadata = record {
          path = relative_path row.dir row.path;
          dir = row.dir;
          chunk = none;
          labels = none;
        };
        timestamp = row.mod_time;
      }
      ∷ (if is_empty (trim_space row.content)
          then []
          else chunk_entries row source content_type 0 (chunks_of (out.clean_markdown row.content)))

  -- The content of a picture: its labels in front of its text.
  unfoldable pub image_content : CacheRow → Text
  image_content row =
      if is_empty row.labels || row.labels == codes "[]"
      then row.content
      else elim (out.parse_labels row.labels) [
        | none ↦ row.content
        | some [] ↦ row.content
        | some (l ∷ ls) ↦ join (32 ∷ []) (l ∷ ls) ++ (32 ∷ row.content)
      ]

  unfoldable pub build_search_entries : Text → CacheRow → List Entry
  build_search_entries source row =
      if row.file_type == codes "md"
      then build_text_entries row source (codes "note_title") (codes "note_content")
      else if row.file_type == codes "pdf"
      then build_text_entries row source (codes "pdf_title") (codes "pdf_content")
      else if row.file_type == codes "image"
      then record {
        source = source;
        source_id = row.path;
        content_type = codes "image";
        title = row.title;
        content = trim_space (image_content row);
        metadata = record {
          path = relative_path row.dir row.path;
          dir = row.dir;
          chunk = none;
          labels = some row.labels;
        };
        timestamp = row.mod_time;
      }
        ∷ []
      else []
