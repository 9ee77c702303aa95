-- ===== src/Core/RateLimiter/Tracks.antt =====
-- The remembered instants of a key against all its grants.
use mcpyeahyouknowme.Prelude.{
  ℕ, ◌+◌, ◌≤◌, ◌<◌, ◌≡◌, sym, ◌∙◌, ap, Bool, true, ◌&&◌, List, [], ◌∷◌, ◌++◌, arith, ltb, leb,
  length, keep, keep-keep, length-append, keep-append, keep-length_le, string_eq, Bool-cases, inl,
  inr,
}
use mcpyeahyouknowme.Core.RateLimiter.{within}

-- `t` lies in the window that begins just after `s`.
abbrev pub in_window : ℕ → ℕ → ℕ → Bool
in_window window s t = ltb s t && leb t (s + window)

-- The log `G` of the grants up to `last` of a key whose remembered instants are `times`.
pub record Tracks (window limit : ℕ) (times : List ℕ) (last : ℕ) (G : List ℕ) : Type 0 where
  pub same : keep (within window last) times ≡ keep (within window last) G
  pub bounded : (s : ℕ) → length (keep (in_window window s) G) ≤ limit

module _ (w limit now : ℕ) (times G : List ℕ) where
  -- A later clock forgets no less.
  pub forget : {last : ℕ} → last ≤ now → Tracks w limit times last G → Tracks w limit times now G
  forget {last} le h = record {
    same =
        sym (keep-keep (within w now) (within w last) (λ t p. ground arith) times)
        ∙ ap (keep (within w now)) h.same
        ∙ keep-keep (within w now) (within w last) (λ t p. ground arith) G;
    bounded = h.bounded;
  }

  -- A refused call drops what has left the window.
  pub drop_old : Tracks w limit times now G → Tracks w limit (keep (within w now) times) now G
  drop_old h = record {
    same = keep-keep (within w now) (within w now) (λ t p. p) times ∙ h.same;
    bounded = h.bounded;
  }

  pub grant :
      Tracks w limit times now G
      → length (keep (within w now) times) < limit
      → Tracks w limit (keep (within w now) times ++ (now ∷ [])) now (G ++ (now ∷ []))
  grant h room = record {
    same =
        rw
          (
            keep-append (within w now) (keep (within w now) times) (now ∷ []),
            keep-append (within w now) G (now ∷ []),
          )
          (ap (λ l. l ++ keep (within w now) (now ∷ []))
            (keep-keep (within w now) (within w now) (λ t p. p) times ∙ h.same));
    bounded = λ s.
        rw
          (
            keep-append (in_window w s) G (now ∷ []),
            length-append (keep (in_window w s) G) (keep (in_window w s) (now ∷ [])),
          )
          (elim (Bool-cases (in_window w s now)) [
            | inl inside ↦ rw inside (omega (arith, room_inside s inside))
            | inr outside ↦ rw outside (omega (arith, h.bounded s))
          ]);
  }
    where
      room_inside : (s : ℕ) → in_window w s now ≡ true → length (keep (in_window w s) G) < limit
      room_inside s inside =
          let fewer : length (keep (in_window w s) G) ≤ length (keep (within w now) G) =
            keep-length_le (in_window w s) (within w now) (λ t p. ground arith) G in
          let same : length (keep (within w now) times) ≡ length (keep (within w now) G) =
            ap length h.same in
          omega arith
