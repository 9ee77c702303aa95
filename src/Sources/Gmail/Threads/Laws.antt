-- ===== src/Sources/Gmail/Threads/Laws.antt =====
-- The participants of a thread, and the folder of a message.
use mcpyeahyouknowme.Prelude.{
  ◌≡◌, refl, ◌∙◌, Bool, false, ◌||◌, Bool-cases, inl, inr, List, [], ◌∷◌, ◌++◌, ◌==◌, contains,
  eq_sym, All, All-append, arith,
}
use mcpyeahyouknowme.Sources.Text.{Text, codes, text_eq, trim_space, is_empty, join}
use mcpyeahyouknowme.Sources.Gmail.Visible.{split_on}
use mcpyeahyouknowme.Sources.Gmail.Threads.{
  GmailMessageRecord, append_parts, append_addresses, participants_of, join_participants,
}

-- No address stands in the list twice.
abbrev pub HasNoRepeat : List Text → Type 0
HasNoRepeat [] = Unit
HasNoRepeat (a ∷ addrs) = (contains addrs a ≡ false) × HasNoRepeat addrs

abbrev IsAddress : Text → Type 0
IsAddress a = is_empty a ≡ false

abbrev pub AreParticipants : List Text → Type 0
AreParticipants addrs = HasNoRepeat addrs × All IsAddress addrs

contains-append :
    (addrs : List Text) (a b : Text) → contains (addrs ++ (a ∷ [])) b ≡ (contains addrs b || a == b)
contains-append [] a b = ground arith
contains-append (x ∷ addrs) a b = ground (arith, contains-append addrs a b)

append-HasNoRepeat :
    (addrs : List Text) (a : Text)
    → HasNoRepeat addrs
    → contains addrs a ≡ false
    → HasNoRepeat (addrs ++ (a ∷ []))
append-HasNoRepeat [] a h c = (refl, tt)
append-HasNoRepeat (x ∷ addrs) a (n, h) c = (
  contains-append addrs a x ∙ ground (arith, n, c, eq_sym a x),
  append-HasNoRepeat addrs a h (ground (arith, c)),
)

or_left : (a b : Bool) → (a || b) ≡ false → a ≡ false
or_left a b h = ground arith

or_right : (a b : Bool) → (a || b) ≡ false → b ≡ false
or_right a b h = ground arith

append_parts-AreParticipants :
    (parts addrs : List Text) → AreParticipants addrs → AreParticipants (append_parts addrs parts)
unfolding append_parts
append_parts-AreParticipants [] addrs h = h
append_parts-AreParticipants (part ∷ parts) addrs (h, named) =
    let addr : Text = trim_space part in
    elim (Bool-cases (is_empty addr || contains addrs addr)) [
      | inl t ↦ rw t (append_parts-AreParticipants parts addrs (h, named))
      | inr f ↦ rw f (
          append_parts-AreParticipants parts (addrs ++ (addr ∷ [])) (
            append-HasNoRepeat addrs addr h (or_right (is_empty addr) (contains addrs addr) f),
            All-append IsAddress addrs (addr ∷ []) named
                (or_left (is_empty addr) (contains addrs addr) f, tt),
          ))
    ]

append_addresses-AreParticipants :
    (addrs : List Text) (raw : Text)
    → AreParticipants addrs
    → AreParticipants (append_addresses addrs raw)
unfolding append_addresses
append_addresses-AreParticipants addrs raw h =
    append_parts-AreParticipants (split_on 44 [] raw) addrs h

participants_of-AreParticipants :
    (msgs : List GmailMessageRecord) (addrs : List Text)
    → AreParticipants addrs
    → AreParticipants (participants_of addrs msgs)
unfolding participants_of
participants_of-AreParticipants [] addrs h = h
participants_of-AreParticipants (msg ∷ msgs) addrs h =
    participants_of-AreParticipants msgs
      (append_addresses
        (append_addresses (append_addresses (append_addresses addrs msg.from) msg.to) msg.cc)
        msg.bcc)
      (append_addresses-AreParticipants
        (append_addresses (append_addresses (append_addresses addrs msg.from) msg.to) msg.cc)
        msg.bcc
        (append_addresses-AreParticipants
          (append_addresses (append_addresses addrs msg.from) msg.to) msg.cc
          (append_addresses-AreParticipants (append_addresses addrs msg.from) msg.to
            (append_addresses-AreParticipants addrs msg.from h))))

-- The participants of a thread are its addresses joined by commas, of which none is empty and none stands
-- there twice.
pub join_participants-AreParticipants :
    (msgs : List GmailMessageRecord)
    → (addrs : List Text) × AreParticipants addrs
      × (join_participants msgs ≡ join (codes ", ") addrs)
unfolding join_participants
join_participants-AreParticipants msgs =
    (participants_of [] msgs, participants_of-AreParticipants msgs [] (tt, tt), refl)
