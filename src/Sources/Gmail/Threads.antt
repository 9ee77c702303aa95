-- ===== src/Sources/Gmail/Threads.antt =====
-- Threads and folders of src/sources/gsuite/app_gmail.go: one row for the messages of a thread, in the order that
-- sort.Slice gives them, and the texts of entries.
pub mod Laws
use mcpyeahyouknowme.Prelude.{
  ℕ, Bool, true, false, not, ◌&&◌, ◌||◌, Option, none, some, List, [], ◌∷◌, ◌++◌, if◌then◌else◌,
  ◌==◌, contains, length,
}
use mcpyeahyouknowme.Sources.Text.{Text, codes, text_eq, trim_space, is_empty, join}
use mcpyeahyouknowme.Sources.Gmail.Visible.{split_on}

-- gmailMessageRecord, as far as a thread reads it
pub record GmailMessageRecord : Type 0 where
  pub id : Text
  pub thread_id : Text
  pub subject : Text
  pub from : Text
  pub to : Text
  pub cc : Text
  pub bcc : Text
  pub date : Text
  pub body_visible : Text

pub record GmailThreadRecord : Type 0 where
  pub thread_id : Text
  pub subject : Text
  pub participants : Text
  pub message_count : ℕ
  pub first_date : Text
  pub last_date : Text

-- primaryFolder
abbrev pub meta_labels : List Text
meta_labels = codes "UNREAD" ∷ codes "STARRED" ∷ codes "IMPORTANT" ∷ []

unfoldable pub first_present : List Text → List Text → Option Text
first_present labels [] = none
first_present labels (p ∷ priority) =
    if contains labels p then some p else first_present labels priority

unfoldable pub first_folder : List Text → Text
first_folder [] = codes "ARCHIVE"
first_folder (l ∷ labels) = if not (contains meta_labels l) then l else first_folder labels

unfoldable pub primary_folder : List Text → Text
unfolding first_present first_folder
primary_folder labels =
    elim (first_present labels (codes "INBOX" ∷ codes "SENT" ∷ codes "DRAFT" ∷ codes "SPAM" ∷ [])) [
      | some p ↦ p
      | none ↦ first_folder labels
    ]

-- appendAddresses, on the addresses so far, which are those in `seen`
unfoldable pub append_parts : List Text → List Text → List Text
append_parts ordered [] = ordered
append_parts ordered (part ∷ parts) =
    let addr = trim_space part in
    append_parts
      (if is_empty addr || contains ordered addr then ordered else ordered ++ (addr ∷ [])) parts

unfoldable pub append_addresses : List Text → Text → List Text
unfolding append_parts split_on
append_addresses ordered raw = append_parts ordered (split_on 44 [] raw)

unfoldable pub participants_of : List Text → List GmailMessageRecord → List Text
unfolding append_addresses
participants_of ordered [] = ordered
participants_of ordered (msg ∷ msgs) =
    participants_of
      (append_addresses
        (append_addresses (append_addresses (append_addresses ordered msg.from) msg.to) msg.cc)
        msg.bcc)
      msgs

unfoldable pub join_participants : List GmailMessageRecord → Text
unfolding participants_of
join_participants msgs = join (codes ", ") (participants_of [] msgs)

-- The last subject that is not blank.
unfoldable pub last_subject : List GmailMessageRecord → Text
last_subject [] = []
last_subject (msg ∷ msgs) =
    let later = last_subject msgs in
    if not (is_empty (trim_space later))
    then later
    else if is_empty (trim_space msg.subject)
    then []
    else msg.subject

abbrev pub last_date_of : GmailMessageRecord → List GmailMessageRecord → Text
last_date_of msg [] = msg.date
last_date_of msg (next ∷ msgs) = last_date_of next msgs

-- buildThreadRecord, on messages in their order
unfoldable pub build_thread_record : List GmailMessageRecord → GmailThreadRecord
unfolding last_subject join_participants
build_thread_record [] = record {
  thread_id = [];
  subject = [];
  participants = [];
  message_count = 0;
  first_date = [];
  last_date = [];
}
build_thread_record (first ∷ msgs) = record {
  thread_id = first.thread_id;
  subject = last_subject (first ∷ msgs);
  participants = join_participants (first ∷ msgs);
  message_count = length (first ∷ msgs);
  first_date = first.date;
  last_date = last_date_of first msgs;
}

-- formatThreadChunkHeader
unfoldable pub format_thread_chunk_header : Text → Text → Text
format_thread_chunk_header subject participants =
    let named = if is_empty subject then [] else codes "Subject: " ++ (subject ++ codes "\n") in
    let joined =
      if is_empty participants
      then []
      else codes "Participants: " ++ (participants ++ codes "\n") in
    let header = named ++ joined in if is_empty header then [] else header ++ codes "\n"

-- formatThreadTranscriptEntry
unfoldable pub format_thread_transcript_entry : GmailMessageRecord → Text
format_thread_transcript_entry msg =
    let body = trim_space msg.body_visible in
    let date_label = if is_empty msg.date then codes "unknown date" else msg.date in
    let sender = if is_empty msg.from then codes "unknown sender" else msg.from in
    if is_empty body
    then []
    else codes "[" ++ (date_label ++ (codes "] " ++ (sender ++ (codes "\n" ++ body))))
