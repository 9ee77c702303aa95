-- ===== src/Sources/Gmail/Visible/Laws.antt =====
-- Stripping quoted replies does not strip a message away.
use mcpyeahyouknowme.Prelude.{
  ℕ, ◌*◌, ◌≤◌, ◌≡◌, ◌⊎◌, sym, ap, ◌∙◌, false, Bool-cases, inl, inr, [], ◌∷◌, ltb, ltb→lt, ◌<◌,
  arith,
}
use mcpyeahyouknowme.Sources.Text.{Text, trim_space, is_empty, byte_len, join}
use mcpyeahyouknowme.Sources.Text.Laws.{trim_space_idem}
use mcpyeahyouknowme.Sources.Gmail.Visible.{
  normalize_lines, too_short, should_fallback_to_raw, Patterns, split_on, before_cut,
  trim_trailing_mobile_signature, trim_trailing_quoted_block, strip_quoted_reply_blocks,
  derive_visible_body,
}

-- What is left of a text in proportion to it.
abbrev pub IsEnough : Text → Text → Type 0
IsEnough raw visible =
    (is_empty visible ≡ false)
    × ((byte_len raw < 200) ⊎ (20 ≤ byte_len visible))
    × ((byte_len raw < 500) ⊎ (byte_len raw ≤ byte_len visible * 10))

lt-or-le : (m n : ℕ) → (m < n) ⊎ (n ≤ m)
lt-or-le m n = elim (Bool-cases (ltb m n)) [
  | inl t ↦ inl (ltb→lt m n t)
  | inr f ↦ inr (ground (arith, f))
]

trimmed-IsEnough :
    (raw visible : Text)
    → is_empty raw ≡ false
    → too_short raw visible ≡ false
    → IsEnough raw visible
unfolding too_short
trimmed-IsEnough raw visible some h = (
  ground (arith, some, h),
  elim (lt-or-le (byte_len raw) 200) [ inl l ↦ inl l | inr l ↦ inr (ground (arith, some, h, l)) ],
  elim (lt-or-le (byte_len raw) 500) [ inl l ↦ inl l | inr l ↦ inr (ground (arith, some, h, l)) ],
)

all-IsEnough : (raw : Text) → is_empty raw ≡ false → IsEnough raw raw
all-IsEnough raw some = (
  some,
  elim (lt-or-le (byte_len raw) 200) [ inl l ↦ inl l | inr l ↦ inr (omega (arith, l)) ],
  inr (omega arith),
)

strip-trimmed :
    (re : Patterns) (body : Text)
    → trim_space (strip_quoted_reply_blocks re body) ≡ strip_quoted_reply_blocks re body
unfolding strip_quoted_reply_blocks
strip-trimmed re body = trim_space_idem (
    join (10 ∷ []) (
      trim_trailing_mobile_signature re
        (trim_trailing_quoted_block (before_cut re [] (split_on 10 [] body)))))

fallback-too_short :
    (re : Patterns) (t : Text)
    → should_fallback_to_raw (trim_space t) (strip_quoted_reply_blocks re (trim_space t))
      ≡ too_short (trim_space t) (strip_quoted_reply_blocks re (trim_space t))
unfolding should_fallback_to_raw
fallback-too_short re t =
    ap (λ x. too_short x (trim_space (strip_quoted_reply_blocks re (trim_space t))))
      (trim_space_idem t)
    ∙ ap (too_short (trim_space t)) (strip-trimmed re (trim_space t))

-- However a message quotes, its visible body is not empty unless the message is blank; it has at least twenty
-- bytes of a message of two hundred or more, and a tenth of a message of five hundred or more, where the
-- message is taken with normalized lines and without white space around it.
pub derive_visible_body-IsEnough :
    (re : Patterns) (raw : Text)
    → is_empty (trim_space (normalize_lines raw)) ≡ false
    → IsEnough (trim_space (normalize_lines raw)) (derive_visible_body re raw)
unfolding derive_visible_body
derive_visible_body-IsEnough re raw some =
    elim (Bool-cases (
      should_fallback_to_raw (trim_space (normalize_lines raw))
        (strip_quoted_reply_blocks re (trim_space (normalize_lines raw))))) [
          | inl t ↦ rw (some, t) (all-IsEnough (trim_space (normalize_lines raw)) some)
          | inr f ↦
              rw (some, f)
                (trimmed-IsEnough (trim_space (normalize_lines raw))
                  (strip_quoted_reply_blocks re (trim_space (normalize_lines raw))) some
                  (sym (fallback-too_short re (normalize_lines raw)) ∙ f))
        ]
