-- ===== src/Sources/Chunks.antt =====
-- Transcript chunks: buildChatChunks of src/sources/whatsapp/source.go and buildGmailThreadChunks of
-- src/sources/gsuite/app_gmail.go, which differ in how they split an entry that is too long. A message comes
-- with its transcript entry, and the header is the one that the chunks share.
pub mod Laws
use mcpyeahyouknowme.Prelude.{
  ℕ, ◌+◌, ◌-◌, ◌*◌, ◌/◌, String, Bool, true, false, not, ◌&&◌, ◌||◌, Option, none, some, List, [],
  ◌∷◌, ◌++◌, if◌then◌else◌, leb, ltb, length,
}
use mcpyeahyouknowme.Sources.Text.{Text, is_empty, trim_space}
use mcpyeahyouknowme.Sources.Split.{split_chat_transcript_entry, split_long_thread_entry}

-- core.ChunkMaxChars
abbrev pub chunk_max_chars : ℕ
chunk_max_chars = 2000

abbrev pub target_size : ℕ
target_size = chunk_max_chars * 3 / 4

pub record Message : Type 0 where
  pub id : String
  pub date : String
  pub entry : Text

-- whatsAppChatChunk and gmailThreadChunk
pub record Chunk : Type 0 where
  pub content : Text
  pub start_message_id : String
  pub end_message_id : String
  pub start_date : String
  pub end_date : String

-- The variables of the loop.
pub record Building : Type 0 where
  pub chunks : List Chunk
  pub current : Text
  pub current_len : ℕ
  pub start_id : String
  pub end_id : String
  pub start_date : String
  pub end_date : String
  pub has_entries : Bool

abbrev pub new_building : Building
new_building = record {
  chunks = [];
  current = [];
  current_len = 0;
  start_id = "";
  end_id = "";
  start_date = "";
  end_date = "";
  has_entries = false;
}

unfoldable pub flush : Building → Building
flush b = if not b.has_entries then b else record {
  chunks =
      b.chunks
      ++ (record {
        content = trim_space b.current;
        start_message_id = b.start_id;
        end_message_id = b.end_id;
        start_date = b.start_date;
        end_date = b.end_date;
      }
          ∷ []);
  current = [];
  current_len = 0;
  start_id = "";
  end_id = "";
  start_date = "";
  end_date = "";
  has_entries = false;
}

module _ (header : Text) where
  unfoldable pub start_chunk : Message → Text → Building → Building
  start_chunk msg content b = record {
    chunks = b.chunks;
    current = header ++ content;
    current_len = length header + length content;
    start_id = msg.id;
    end_id = msg.id;
    start_date = msg.date;
    end_date = msg.date;
    has_entries = true;
  }

  -- The loop over the parts of an entry that is too long.
  unfoldable pub add_parts : Message → List Text → Building → Building
  add_parts msg [] b = b
  add_parts msg (part ∷ parts) b = add_parts msg parts (flush (start_chunk msg part b))

  -- An entry that fits: into a new chunk or at the end of the current one.
  unfoldable pub add_entry : Message → Building → Building
  add_entry msg b =
      if not b.has_entries
      then start_chunk msg msg.entry b
      else (if ltb target_size (b.current_len + 2 + length msg.entry)
          then start_chunk msg msg.entry (flush b)
          else record b {
            current = b.current ++ (10 ∷ 10 ∷ msg.entry);
            current_len = b.current_len + (2 + length msg.entry);
            end_id = msg.id;
            end_date = msg.date;
          })

  module _ (split : Text → ℕ → Option (List Text)) where
    unfoldable pub add_message : Message → Building → Option Building
    add_message msg b =
        if is_empty msg.entry
        then some b
        else (if ltb chunk_max_chars (length header + length msg.entry)
            then elim (split msg.entry (chunk_max_chars - length header)) [
              | none ↦ none
              | some parts ↦ some (add_parts msg parts (flush b))
            ]
            else some (add_entry msg b))

    unfoldable pub add_messages : List Message → Building → Option Building
    add_messages [] b = some b
    add_messages (msg ∷ msgs) b = elim (add_message msg b) [
      | none ↦ none
      | some b' ↦ add_messages msgs b'
    ]

    unfoldable pub build_chunks : List Message → Option (List Chunk)
    build_chunks msgs = elim (add_messages msgs new_building) [
      | none ↦ none
      | some b ↦ some (flush b).chunks
    ]

-- buildChatChunks
abbrev pub build_chat_chunks : Text → List Message → Option (List Chunk)
build_chat_chunks header = build_chunks header split_chat_transcript_entry

-- buildGmailThreadChunks
abbrev pub build_gmail_thread_chunks : Text → List Message → Option (List Chunk)
build_gmail_thread_chunks header = build_chunks header split_long_thread_entry
