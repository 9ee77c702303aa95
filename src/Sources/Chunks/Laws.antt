-- ===== src/Sources/Chunks/Laws.antt =====
-- Every chunk keeps within the limit, for a header that leaves room.
use mathlib.Core.Path.{subst}
use mcpyeahyouknowme.Prelude.{
  ℕ, ◌+◌, ◌-◌, ◌≤◌, ◌<◌, ◌≡◌, ◌⊎◌, refl, sym, ◌∙◌, true, false, Option, some, List, [], ◌∷◌, ◌++◌,
  arith, ltb, length, length-append, All, All-append, Bool-cases, true-ne-false, inl, inr,
}
use mcpyeahyouknowme.Sources.Text.{Text, is_empty}
use mcpyeahyouknowme.Sources.Text.Laws.{length-trim_space}
use mcpyeahyouknowme.Sources.Split.{split_chat_transcript_entry, split_long_thread_entry}
use mcpyeahyouknowme.Sources.Split.Laws.{Splits, split-Splits}
use mcpyeahyouknowme.Sources.Chunks.{
  chunk_max_chars, target_size, Message, Chunk, Building, new_building, flush, start_chunk,
  add_parts, add_entry, add_message, add_messages, build_chunks, build_chat_chunks,
  build_gmail_thread_chunks,
}

abbrev pub IsShort : Chunk → Type 0
IsShort c = length c.content ≤ chunk_max_chars

-- What holds between two messages.
record IsBounded (b : Building) : Type 0 where
  done : All IsShort b.chunks
  counted : b.has_entries ≡ true → length b.current ≡ b.current_len
  short : b.has_entries ≡ true → b.current_len ≤ chunk_max_chars

flush-chunks :
    (b : Building)
    → b.has_entries ≡ true
    → All IsShort b.chunks
    → length b.current ≤ chunk_max_chars
    → All IsShort (flush b).chunks
unfolding flush
flush-chunks b h done short =
    rw h (All-append IsShort b.chunks _ done (omega (arith, length-trim_space b.current), tt))

flush-has_entries : (b : Building) → (flush b).has_entries ≡ false
unfolding flush
flush-has_entries b = ground arith

flush-off : (b : Building) → b.has_entries ≡ false → flush b ≡ b
unfolding flush
flush-off b h = ground arith

flush-IsBounded : (b : Building) → IsBounded b → IsBounded (flush b)
flush-IsBounded b h = elim (Bool-cases b.has_entries) [
  | inl e ↦ record {
    done = flush-chunks b e h.done (omega (arith, h.counted e, h.short e));
    counted = λ t. absurd (true-ne-false (sym t ∙ flush-has_entries b));
    short = λ t. absurd (true-ne-false (sym t ∙ flush-has_entries b));
  }
  | inr e ↦ subst IsBounded (sym (flush-off b e)) h
]

module _ (header : Text) where
  start_chunk-IsBounded :
      (msg : Message) (content : Text) (b : Building)
      → length header + length content ≤ chunk_max_chars
      → IsBounded b
      → IsBounded (start_chunk header msg content b)
  unfolding start_chunk
  start_chunk-IsBounded msg content b short h = record {
    done = h.done;
    counted = λ e. length-append header content;
    short = λ e. short;
  }

  add_parts-IsBounded :
      (msg : Message) (parts : List Text) (b : Building)
      → length header ≤ chunk_max_chars
      → All (λ (t : Text). length t ≤ chunk_max_chars - length header) parts
      → IsBounded b
      → IsBounded (add_parts header msg parts b)
  unfolding add_parts
  add_parts-IsBounded msg [] b room short h = h
  add_parts-IsBounded msg (p ∷ ps) b room (s, short) h =
      add_parts-IsBounded msg ps (flush (start_chunk header msg p b)) room short (
        flush-IsBounded (start_chunk header msg p b)
          (start_chunk-IsBounded msg p b (omega arith) h))

  append_entry : Message → Building → Building
  append_entry msg b = record b {
    current = b.current ++ (10 ∷ 10 ∷ msg.entry);
    current_len = b.current_len + (2 + length msg.entry);
    end_id = msg.id;
    end_date = msg.date;
  }

  append_entry-IsBounded :
      (msg : Message) (b : Building)
      → ltb target_size (b.current_len + 2 + length msg.entry) ≡ false
      → IsBounded b
      → IsBounded (append_entry msg b)
  unfolding append_entry
  append_entry-IsBounded msg b room h = record {
    done = h.done;
    counted = λ e. omega (arith, length-append b.current (10 ∷ 10 ∷ msg.entry), h.counted e);
    short = λ e. ground arith;
  }

  add_entry-cases :
      (msg : Message) (b : Building)
      → (add_entry header msg b ≡ start_chunk header msg msg.entry b)
        ⊎ ((add_entry header msg b ≡ start_chunk header msg msg.entry (flush b))
            ⊎ ((add_entry header msg b ≡ append_entry msg b)
                × (ltb target_size (b.current_len + 2 + length msg.entry) ≡ false)))
  unfolding add_entry append_entry
  add_entry-cases msg b = elim (Bool-cases b.has_entries) [
    | inr e ↦ inl (ground arith)
    | inl e ↦ elim (Bool-cases (ltb target_size (b.current_len + 2 + length msg.entry))) [
      | inl f ↦ inr (inl (ground arith))
      | inr f ↦ inr (inr (ground arith, f))
    ]
  ]

  add_entry-IsBounded :
      (msg : Message) (b : Building)
      → length header + length msg.entry ≤ chunk_max_chars
      → IsBounded b
      → IsBounded (add_entry header msg b)
  add_entry-IsBounded msg b short h = elim (add_entry-cases msg b) [
    | inl e ↦ subst IsBounded (sym e) (start_chunk-IsBounded msg msg.entry b short h)
    | inr (inl e) ↦
        subst IsBounded (sym e)
          (start_chunk-IsBounded msg msg.entry (flush b) short (flush-IsBounded b h))
    | inr (inr (e, room)) ↦ subst IsBounded (sym e) (append_entry-IsBounded msg b room h)
  ]

  module _ (split : Text → ℕ → Option (List Text))
      (splits : (entry : Text) (limit : ℕ) → 1 ≤ limit → Splits limit entry (split entry limit))
      (room : length header < chunk_max_chars) where
    Added : Option Building → Type 0
    Added o = (b : Building) × (o ≡ some b) × IsBounded b

    add_message-IsBounded :
        (msg : Message) (b : Building) → IsBounded b → Added (add_message header split msg b)
    unfolding add_message Added
    add_message-IsBounded msg b h = elim (Bool-cases (is_empty msg.entry)) [
      | inl e ↦ (b, ground arith, h)
      | inr e ↦ elim (Bool-cases (ltb chunk_max_chars (length header + length msg.entry))) [
        | inl f ↦
            let (parts, got, bounds, _) =
              splits msg.entry (chunk_max_chars - length header) (omega arith) in
            (
              add_parts header msg parts (flush b),
              ground (arith, got),
              add_parts-IsBounded msg parts (flush b) (omega arith) bounds (flush-IsBounded b h),
            )
        | inr f ↦ (add_entry header msg b, ground arith, add_entry-IsBounded msg b (ground arith) h)
      ]
    ]

    add_messages-step :
        (msg : Message) (msgs : List Message) (b b' : Building)
        → add_message header split msg b ≡ some b'
        → add_messages header split (msg ∷ msgs) b ≡ add_messages header split msgs b'
    unfolding add_messages
    add_messages-step msg msgs b b' h = ground arith

    build_chunks-done :
        (msgs : List Message) (b : Building)
        → add_messages header split msgs new_building ≡ some b
        → build_chunks header split msgs ≡ some (flush b).chunks
    unfolding build_chunks
    build_chunks-done msgs b h = ground arith

    add_messages-IsBounded :
        (msgs : List Message) (b : Building)
        → IsBounded b
        → Added (add_messages header split msgs b)
    unfolding add_messages Added
    add_messages-IsBounded [] b h = (b, refl, h)
    add_messages-IsBounded (msg ∷ msgs) b h =
        let (b', got, h') = add_message-IsBounded msg b h in
        subst Added (sym (add_messages-step msg msgs b b' got)) (add_messages-IsBounded msgs b' h')

    build_chunks-IsShort :
        (msgs : List Message)
        → (chunks : List Chunk) × (build_chunks header split msgs ≡ some chunks)
          × All IsShort chunks
    unfolding Added
    build_chunks-IsShort msgs =
        let (b, got, h) =
          add_messages-IsBounded msgs new_building
            (record { done = tt; counted = λ e. refl; short = λ e. ground arith }) in
        ((flush b).chunks, build_chunks-done msgs b got, (flush-IsBounded b h).done)

-- If the header leaves room for a rune, buildChatChunks and buildGmailThreadChunks end, and each of their
-- chunks has at most ChunkMaxChars runes.
pub build-IsShort :
    (header : Text) (msgs : List Message)
    → length header < chunk_max_chars
    → ((chunks : List Chunk) × (build_chat_chunks header msgs ≡ some chunks) × All IsShort chunks)
      × ((chunks : List Chunk) × (build_gmail_thread_chunks header msgs ≡ some chunks)
          × All IsShort chunks)
build-IsShort header msgs room = (
  build_chunks-IsShort header split_chat_transcript_entry (λ e l h. (split-Splits e l h).0) room
      msgs,
  build_chunks-IsShort header split_long_thread_entry (λ e l h. (split-Splits e l h).1) room msgs,
)
