-- ===== src/Core/LogTrim/Laws.antt =====
-- What is left of a log file.
use mcpyeahyouknowme.Prelude.{
  ℕ, zero, suc, ◌-◌, ◌≤◌, ◌<◌, ◌≡◌, refl, ap, ◌∙◌, Bool, true, false, ◌||◌, ◌⊎◌, none, some, [],
  ◌∷◌, ◌++◌, arith, ◌==◌, nat_eq, ltb, length, take, drop, length-drop, length-append, Bool-cases,
  inl, inr,
}
use mcpyeahyouknowme.Core.LogTrim.{
  Bytes, Calls, after_newline, tail_of, write_tail, trim_log_file_path,
}

abbrev pub has_line_feed : Bytes → Bool
has_line_feed [] = false
has_line_feed (b ∷ bytes) = b == 10 || has_line_feed bytes

-- What is left of `window` if it is cut at a line: the part behind its first line feed, or all of it if it has
-- none.
abbrev pub IsCut : Bytes → Bytes → Type 0
IsCut window tail =
    ((seen : Bytes) × (window ≡ seen ++ (10 ∷ tail)) × (has_line_feed seen ≡ false))
    ⊎ ((tail ≡ window) × (has_line_feed window ≡ false))

-- A file of at most `keep_tail` bytes is kept, of a longer one its last `keep_tail` bytes, cut at a line.
abbrev pub IsTail : ℕ → Bytes → Bytes → Type 0
IsTail keep_tail file tail =
    ((length file ≤ keep_tail) × (tail ≡ file))
    ⊎ ((keep_tail < length file) × IsCut (drop (length file - keep_tail) file) tail)

nat_eq-eq : (a b : ℕ) → (a == b) ≡ true → a ≡ b
nat_eq-eq a b t = ground arith

-- `IsCut`, with what is left if there is no line feed.
CutOr : Bytes → Bytes → Bytes → Type 0
CutOr all bytes tail =
    ((seen : Bytes) × (bytes ≡ seen ++ (10 ∷ tail)) × (has_line_feed seen ≡ false))
    ⊎ ((tail ≡ all) × (has_line_feed bytes ≡ false))

CutOr-cons :
    (all bytes tail : Bytes) (b : ℕ)
    → (b == 10) ≡ false
    → CutOr all bytes tail
    → CutOr all (b ∷ bytes) tail
unfolding CutOr
CutOr-cons all bytes tail b f (inl (seen, e, none_seen)) =
    inl (b ∷ seen, ap (λ x. b ∷ x) e, rw f none_seen)
CutOr-cons all bytes tail b f (inr (e, none_there)) = inr (e, rw f none_there)

CutOr-nil : (all : Bytes) → CutOr all [] all
unfolding CutOr
CutOr-nil all = inr (refl, refl)

CutOr-here : (all bytes : Bytes) (b : ℕ) → (b == 10) ≡ true → CutOr all (b ∷ bytes) bytes
unfolding CutOr
CutOr-here all bytes b t = inl ([], ap (λ x. x ∷ bytes) (nat_eq-eq b 10 t), refl)

after_newline-CutOr : (all bytes : Bytes) → CutOr all bytes (after_newline all bytes)
unfolding after_newline
after_newline-CutOr all [] = CutOr-nil all
after_newline-CutOr all (b ∷ bytes) = elim (Bool-cases (b == 10)) [
  | inl t ↦ rw t (CutOr-here all bytes b t)
  | inr f ↦
      rw f (CutOr-cons all bytes (after_newline all bytes) b f (after_newline-CutOr all bytes))
]

after_newline-IsCut : (bytes : Bytes) → IsCut bytes (after_newline bytes bytes)
unfolding CutOr
after_newline-IsCut bytes = after_newline-CutOr bytes bytes

IsCut-length : (window tail : Bytes) → IsCut window tail → length tail ≤ length window
IsCut-length window tail (inl (seen, e, h)) =
    omega (arith, ap length e, length-append seen (10 ∷ tail))
IsCut-length window tail (inr (e, h)) = omega (arith, ap length e)

IsTail-length :
    (keep_tail : ℕ) (file tail : Bytes) → IsTail keep_tail file tail → length tail ≤ keep_tail
IsTail-length keep_tail file tail (inl (small, e)) = omega (arith, ap length e)
IsTail-length keep_tail file tail (inr (large, cut)) = omega (
  arith,
  IsCut-length (drop (length file - keep_tail) file) tail cut,
  length-drop (length file - keep_tail) file,
)

start_zero : (n : ℕ) → ltb 0 n ≡ false → n ≡ 0
start_zero n f = ground arith

tail_of-IsTail :
    (keep_tail : ℕ) (file : Bytes)
    → let start = length file - keep_tail in IsTail keep_tail file (tail_of start (drop start file))
tail_of-IsTail keep_tail file =
    let start = length file - keep_tail in
    elim (Bool-cases (ltb 0 start)) [
      | inl t ↦ rw t (inr (ground arith, after_newline-IsCut (drop start file)))
      | inr f ↦ rw f (inl (ground arith, ap (λ n. drop n file) (start_zero start f)))
    ]

take_all : (n : ℕ) (t : Bytes) → length t ≤ n → take n t ≡ t
take_all zero [] h = refl
take_all zero (b ∷ t) h = ground arith
take_all (suc n) [] h = refl
take_all (suc n) (b ∷ t) h = ap (λ x. b ∷ x) (take_all n t (omega arith))

trims :
    (calls : Calls) (threshold keep_tail : ℕ) (file : Bytes)
    → calls.stat ≡ none
    → calls.open_file ≡ none
    → calls.read_at ≡ none
    → calls.reopen ≡ none
    → calls.write ≡ none
    → threshold < length file
    → 1 ≤ keep_tail
    → trim_log_file_path calls threshold keep_tail (some file) ≡ (
      some (
          tail_of
            (length file - keep_tail)
            (take calls.read_size (drop (length file - keep_tail) file))),
      none,
    )
unfolding trim_log_file_path write_tail
trims calls threshold keep_tail file s o r p w large pos = ground (arith, s, o, r, p, w)

-- If no system call fails and ReadAt fills its buffer, a log file above the threshold is replaced by its last
-- `keep_tail` bytes from behind their first line feed, by all of these bytes if they have no line feed, and by
-- itself if it has no more bytes than these; that is at most `keep_tail` bytes.
pub trim_log_file_path-IsTail :
    (calls : Calls) (threshold keep_tail : ℕ) (file : Bytes)
    → calls.stat ≡ none
    → calls.open_file ≡ none
    → calls.read_at ≡ none
    → calls.reopen ≡ none
    → calls.write ≡ none
    → keep_tail ≤ calls.read_size
    → threshold < length file
    → 1 ≤ keep_tail
    → (tail : Bytes) × (trim_log_file_path calls threshold keep_tail (some file)
        ≡ (some tail, none))
      × IsTail keep_tail file tail
      × (length tail ≤ keep_tail)
trim_log_file_path-IsTail calls threshold keep_tail file s o r p w full large pos =
    let start = length file - keep_tail in
    let same : take calls.read_size (drop start file) ≡ drop start file =
      take_all calls.read_size (drop start file) (omega (arith, length-drop start file)) in
    let kept = tail_of-IsTail keep_tail file in
    (
      tail_of start (drop start file),
      trims calls threshold keep_tail file s o r p w large pos
          ∙ ap (λ read. (some (tail_of start read), none)) same,
      kept,
      IsTail-length keep_tail file (tail_of start (drop start file)) kept,
    )
