-- ===== src/Sources/Whatsapp/Names.antt =====
-- Names and texts of WhatsApp messages: src/sources/whatsapp/store.go (names), source.go (transcripts) and
-- service.go (the texts of tools). Texts are sequences of runes, and times come formatted.
pub mod Laws
use mcpyeahyouknowme.Prelude.{
  ℕ, Bool, true, false, not, ◌&&◌, ◌||◌, Option, none, some, List, [], ◌∷◌, ◌++◌, if◌then◌else◌,
  ◌==◌, nat_eq, leb, ltb, length, take, drop, all,
}
use mcpyeahyouknowme.Sources.Text.{Text, codes, text_eq, trim_space, is_empty, has_prefix}
use mcpyeahyouknowme.Sources.Whatsapp.Fuzzy.{index_substring}

abbrev pub is_digit : ℕ → Bool
is_digit c = leb 48 c && leb c 57

-- looksLikePhoneNumber
unfoldable pub looks_like_phone_number : Text → Bool
looks_like_phone_number [] = false
looks_like_phone_number (c ∷ s) =
    if c == 43 then not (is_empty s) && all is_digit s else all is_digit (c ∷ s)

-- looksLikeGroupPlaceholder
unfoldable pub looks_like_group_placeholder : Text → Bool
unfolding looks_like_phone_number
looks_like_group_placeholder name =
    has_prefix name (codes "Group ")
    && looks_like_phone_number (drop (length (codes "Group ")) name)

-- isSynthesizedName
abbrev last_is : ℕ → Text → Bool
last_is c [] = false
last_is c (r ∷ []) = r == c
last_is c (r ∷ s ∷ t) = last_is c (s ∷ t)

unfoldable pub is_synthesized_name : Text → Bool
is_synthesized_name name = has_prefix name (codes "(") && last_is 41 name

-- The queries of GetSenderName: a name by the exact JID and by a part of it, and, if the contacts are open, the
-- full and the push name of a contact and the phone number of a linked identity. NULL and missing rows
-- are `none`.
pub record Contacts : Type 0 where
  pub names_of : Text → Option (Option Text × Option Text)
  pub mapped_phone : Text → Option Text

pub record Directory : Type 0 where
  pub chat_name : Text → Option Text
  pub chat_name_like : Text → Option Text
  pub contacts : Option Contacts

-- A value that is neither NULL nor empty.
abbrev pub given : Option Text → Option Text
given none = none
given (some t) = if is_empty t then none else some t

abbrev pub first_of : Option Text → Option Text → Option Text
first_of (some t) o = some t
first_of none o = o

-- The name of a chat, unless it looks like a number.
usable_name : Option Text → Option Text
usable_name o = elim (given o) [
  | none ↦ none
  | some name ↦ if looks_like_phone_number name then none else some name
]

-- The full name of a contact, or the push name.
contact_name : Option (Option Text × Option Text) → Option Text
contact_name none = none
contact_name (some (full_name, push_name)) = first_of (given full_name) (given push_name)

-- The first candidate with a name.
candidate_name : Contacts → List Text → Option Text
unfolding contact_name
candidate_name c [] = none
candidate_name c (jid ∷ jids) = first_of (contact_name (c.names_of jid)) (candidate_name c jids)

-- The name of the phone number that a linked identity stands for, or that number.
linked_name : Contacts → Option Text → Option Text
unfolding contact_name
linked_name c none = none
linked_name c (some pn) =
    first_of (contact_name (c.names_of (pn ++ codes "@s.whatsapp.net"))) (some pn)

contacts_name : Option Contacts → Text → Text → Option Text
unfolding candidate_name linked_name
contacts_name none sender_jid phone_part = none
contacts_name (some c) sender_jid phone_part =
    first_of
      (candidate_name c
        (sender_jid ∷ (phone_part ++ codes "@s.whatsapp.net") ∷ (phone_part ++ codes "@lid") ∷ []))
      (linked_name c (given (c.mapped_phone phone_part)))

-- What comes before the first "@", if there is one.
unfoldable pub phone_part_of : Text → Text
unfolding index_substring
phone_part_of sender_jid = elim (index_substring sender_jid (64 ∷ [])) [
  | none ↦ sender_jid
  | some i ↦ take i sender_jid
]

-- GetSenderName
unfoldable pub get_sender_name : Directory → Text → Text
unfolding usable_name contacts_name phone_part_of
get_sender_name d sender_jid =
    let phone_part = phone_part_of sender_jid in
    elim (first_of (usable_name (d.chat_name sender_jid)) (
      first_of (usable_name (d.chat_name_like phone_part))
        (contacts_name d.contacts sender_jid phone_part))) [ some name ↦ name | none ↦ sender_jid ]

pub record WhatsAppMessage : Type 0 where
  pub id : Text
  pub chat_jid : Text
  pub chat_name : Text
  pub sender : Text
  pub content : Text
  pub media_type : Text
  -- formatted as the text wants it
  pub timestamp : Text
  pub is_from_me : Bool

-- formatChatChunkHeader
unfoldable pub format_chat_chunk_header : WhatsAppMessage → Text
format_chat_chunk_header msg =
    let chat_name = if is_empty msg.chat_name then msg.chat_jid else msg.chat_name in
    let jid_line =
      if not (is_empty msg.chat_jid) && not (msg.chat_jid == chat_name)
      then codes "Chat JID: " ++ (msg.chat_jid ++ codes "\n")
      else [] in
    codes "Chat: " ++ (chat_name ++ (codes "\n" ++ (jid_line ++ codes "\n")))

-- `sender_name` is GetSenderName.
module _ (sender_name : Text → Text) where
  -- formatChatTranscriptEntry
  unfoldable pub format_chat_transcript_entry : WhatsAppMessage → Text
  unfolding looks_like_phone_number
  format_chat_transcript_entry msg =
      let body = trim_space msg.content in
      let known = sender_name msg.sender in
      let sender_label =
        if msg.is_from_me
        then codes "Me"
        else if is_empty known || looks_like_phone_number known
        then msg.sender
        else known in
      if is_empty body
      then []
      else codes "[" ++ (msg.timestamp ++ (codes "] " ++ (sender_label ++ (codes "\n" ++ body))))

  -- formatMessage
  unfoldable pub format_message : WhatsAppMessage → Text
  format_message msg =
      let place =
        if is_empty msg.chat_name
        then codes "[" ++ (msg.timestamp ++ codes "] ")
        else codes "[" ++ (msg.timestamp ++ (codes "] Chat: " ++ (msg.chat_name ++ codes " "))) in
      let prefix =
        if is_empty msg.media_type
        then []
        else codes "["
          ++ (msg.media_type
              ++ (codes " - Message ID: "
                  ++ (msg.id ++ (codes " - Chat JID: " ++ (msg.chat_jid ++ codes "] "))))) in
      let sender = if msg.is_from_me then codes "Me" else sender_name msg.sender in
      place
      ++ (codes "From: " ++ (sender ++ (codes ": " ++ (prefix ++ (msg.content ++ codes "\n")))))

  all_formatted : List WhatsAppMessage → Text
  unfolding format_message
  all_formatted [] = []
  all_formatted (m ∷ ms) = format_message m ++ all_formatted ms

  -- formatMessages
  unfoldable pub format_messages : List WhatsAppMessage → Text
  unfolding all_formatted
  format_messages [] = codes "No messages to display."
  format_messages (m ∷ ms) = all_formatted (m ∷ ms)
