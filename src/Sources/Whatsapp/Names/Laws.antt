-- ===== src/Sources/Whatsapp/Names/Laws.antt =====
-- A sender always has a name.
use mcpyeahyouknowme.Prelude.{
  ◌≡◌, false, Bool-cases, inl, inr, Option, none, some, List, [], ◌∷◌, ◌++◌, if◌then◌else◌,
}
use mcpyeahyouknowme.Sources.Text.{Text, codes, is_empty}
use mcpyeahyouknowme.Sources.Whatsapp.Names.{
  looks_like_phone_number, Contacts, Directory, given, first_of, usable_name, contact_name,
  candidate_name, linked_name, contacts_name, phone_part_of, get_sender_name,
}

-- No name, or one that is not empty.
abbrev IsNamed : Option Text → Type 0
IsNamed none = Unit
IsNamed (some name) = is_empty name ≡ false

given-IsNamed : (o : Option Text) → IsNamed (given o)
given-IsNamed none = tt
given-IsNamed (some t) = elim (Bool-cases (is_empty t)) [ inl e ↦ rw e tt | inr f ↦ rw f f ]

first_of-IsNamed : (a b : Option Text) → IsNamed a → IsNamed b → IsNamed (first_of a b)
first_of-IsNamed (some t) b h k = h
first_of-IsNamed none b h k = k

unless_phone-IsNamed :
    (o : Option Text)
    → IsNamed o
    → IsNamed (elim o [
      | none ↦ none
      | some name ↦ if looks_like_phone_number name then none else some name
    ])
unless_phone-IsNamed none h = tt
unless_phone-IsNamed (some t) h = elim (Bool-cases (looks_like_phone_number t)) [
  | inl e ↦ rw e tt
  | inr f ↦ rw f h
]

usable_name-IsNamed : (o : Option Text) → IsNamed (usable_name o)
unfolding usable_name
usable_name-IsNamed o = unless_phone-IsNamed (given o) (given-IsNamed o)

contact_name-IsNamed : (o : Option (Option Text × Option Text)) → IsNamed (contact_name o)
unfolding contact_name
contact_name-IsNamed none = tt
contact_name-IsNamed (some (full, push)) =
    first_of-IsNamed (given full) (given push) (given-IsNamed full) (given-IsNamed push)

candidate_name-IsNamed : (c : Contacts) (jids : List Text) → IsNamed (candidate_name c jids)
unfolding candidate_name
candidate_name-IsNamed c [] = tt
candidate_name-IsNamed c (jid ∷ jids) =
    first_of-IsNamed (contact_name (c.names_of jid)) (candidate_name c jids)
      (contact_name-IsNamed (c.names_of jid)) (candidate_name-IsNamed c jids)

linked_name-IsNamed : (c : Contacts) (o : Option Text) → IsNamed o → IsNamed (linked_name c o)
unfolding linked_name
linked_name-IsNamed c none h = tt
linked_name-IsNamed c (some pn) h =
    first_of-IsNamed (contact_name (c.names_of (pn ++ codes "@s.whatsapp.net"))) (some pn)
      (contact_name-IsNamed (c.names_of (pn ++ codes "@s.whatsapp.net"))) h

contacts_name-IsNamed :
    (o : Option Contacts) (jid phone : Text) → IsNamed (contacts_name o jid phone)
unfolding contacts_name
contacts_name-IsNamed none jid phone = tt
contacts_name-IsNamed (some c) jid phone =
    let jids : List Text =
      jid ∷ (phone ++ codes "@s.whatsapp.net") ∷ (phone ++ codes "@lid") ∷ [] in
    first_of-IsNamed (candidate_name c jids) (linked_name c (given (c.mapped_phone phone)))
      (candidate_name-IsNamed c jids)
      (linked_name-IsNamed c (given (c.mapped_phone phone)) (given-IsNamed (c.mapped_phone phone)))

or_jid :
    (o : Option Text) (jid : Text)
    → IsNamed o
    → is_empty jid ≡ false
    → is_empty (elim o [ some name ↦ name | none ↦ jid ]) ≡ false
or_jid none jid h k = k
or_jid (some name) jid h k = h

-- Whatever the chats and contacts hold, the sender of a message has a name that is not empty, if the JID is not.
pub get_sender_name-some :
    (d : Directory) (jid : Text) → is_empty jid ≡ false → is_empty (get_sender_name d jid) ≡ false
unfolding get_sender_name
get_sender_name-some d jid h =
    let phone : Text = phone_part_of jid in
    let later : Option Text =
      first_of (usable_name (d.chat_name_like phone)) (contacts_name d.contacts jid phone) in
    or_jid (first_of (usable_name (d.chat_name jid)) later) jid
      (first_of-IsNamed (usable_name (d.chat_name jid)) later
        (usable_name-IsNamed (d.chat_name jid))
        (first_of-IsNamed (usable_name (d.chat_name_like phone))
          (contacts_name d.contacts jid phone) (usable_name-IsNamed (d.chat_name_like phone))
          (contacts_name-IsNamed d.contacts jid phone)))
      h
