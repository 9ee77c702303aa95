-- ===== src/Core/RateLimiter/Window.antt =====
-- What the limiter promises over a whole run of calls.
use mcpyeahyouknowme.Prelude.{
  ℕ, ◌≤◌, ◌<◌, ◌≡◌, refl, sym, ◌∙◌, ap, String, Bool, true, ◌&&◌, List, [], ◌∷◌, ◌++◌, arith, ltb,
  leb, length, keep, ◌==◌, eq_true, eq_sym, eq_refl, if◌then◌else◌, string_eq, and_true, and_false,
  Bool-cases, inl, inr,
}
use mathlib.Core.Path.{subst, subst₂}
use mathlib.Core.List.{append_assoc, append-nil}
use mcpyeahyouknowme.Prelude.Dict.{lookup, lookup-insert}
use mcpyeahyouknowme.Prelude.Int.{ℤ}
use mcpyeahyouknowme.Core.RateLimiter.{
  RateLimiter, within, times_of, kept_at, allow, new_rate_limiter,
}
use mcpyeahyouknowme.Core.RateLimiter.Tracks.{in_window, Tracks, forget, drop_old, grant}

-- The calls come in the order of the clock, the first no earlier than `last`.
abbrev pub Chronological : ℕ → List (String × ℕ) → Type 0
Chronological last [] = Unit
Chronological last ((_, now) ∷ cs) = (last ≤ now) × Chronological now cs

-- The instants at which a run of calls was granted to `key`.
unfoldable pub grants : String → RateLimiter → List (String × ℕ) → List ℕ
grants key r [] = []
grants key r ((j, now) ∷ cs) =
    let (r', ok) = allow r j now in
    let rest = grants key r' cs in if ok && j == key then now ∷ rest else rest

-- The limiter that a run of calls leaves behind, and the instant of its last call.
pub run : RateLimiter → List (String × ℕ) → RateLimiter
run r [] = r
run r ((j, now) ∷ cs) = run (allow r j now).0 cs

abbrev pub last_call : ℕ → List (String × ℕ) → ℕ
last_call last [] = last
last_call last ((_, now) ∷ cs) = last_call now cs

pub allow-limit : (r : RateLimiter) (j : String) (now : ℕ) → (allow r j now).0.limit ≡ r.limit
unfolding allow
allow-limit r j now = ground arith

pub allow-window : (r : RateLimiter) (j : String) (now : ℕ) → (allow r j now).0.window ≡ r.window
unfolding allow
allow-window r j now = ground arith

new_limiter_empty : (limit window : ℤ) → (new_rate_limiter limit window).calls ≡ []
unfolding new_rate_limiter
new_limiter_empty limit window = refl

run-limit : (r : RateLimiter) (cs : List (String × ℕ)) → (run r cs).limit ≡ r.limit
unfolding run
run-limit r [] = refl
run-limit r ((j, now) ∷ cs) = run-limit (allow r j now).0 cs ∙ allow-limit r j now

run-window : (r : RateLimiter) (cs : List (String × ℕ)) → (run r cs).window ≡ r.window
unfolding run
run-window r [] = refl
run-window r ((j, now) ∷ cs) = run-window (allow r j now).0 cs ∙ allow-window r j now

-- What a call leaves in the table, key by key.
pub times_of-allow :
    (r : RateLimiter) (j k : String) (now : ℕ)
    → times_of (allow r j now).0 k ≡ (
        if k == j
        then (if (allow r j now).1 then kept_at r j now ++ (now ∷ []) else kept_at r j now)
        else times_of r k)
unfolding allow
times_of-allow r j k now = elim (Bool-cases (leb r.limit (length (kept_at r j now)))) [
  | inl full ↦ rw full (rw lookup-insert (ground arith))
  | inr room ↦ rw room (rw lookup-insert (ground arith))
]

allow_room :
    (r : RateLimiter) (key : String) (now : ℕ)
    → (allow r key now).1 ≡ true
    → length (kept_at r key now) < r.limit
unfolding allow
allow_room r key now h = ground arith

allow_decides :
    (r : RateLimiter) (key : String) (now limit n : ℕ)
    → r.limit ≡ limit
    → length (kept_at r key now) ≡ n
    → (allow r key now).1 ≡ ltb n limit
unfolding allow
allow_decides r key now limit n el en = ground arith

-- What the table and the log of `key` are after a call of `key` that was granted or not.
abbrev times_after : RateLimiter → String → ℕ → Bool → List ℕ
times_after r key now ok = if ok then kept_at r key now ++ (now ∷ []) else kept_at r key now

allow_same-Tracks :
    (r : RateLimiter) (key : String) (now : ℕ) (G : List ℕ)
    → Tracks r.window r.limit (times_of r key) now G
    → Tracks r.window r.limit
        (times_after r key now (allow r key now).1)
        now
        (if (allow r key now).1 then G ++ (now ∷ []) else G)
allow_same-Tracks r key now G h = elim (Bool-cases (allow r key now).1) [
  | inl ok ↦ rw ok (grant r.window r.limit now (times_of r key) G h (allow_room r key now ok))
  | inr refused ↦ rw refused (drop_old r.window r.limit now (times_of r key) G h)
]

-- One call, of any key, keeps the log of `key` right.
allow-Tracks :
    (r : RateLimiter) (key j : String) (now : ℕ) (G : List ℕ)
    → Tracks r.window r.limit (times_of r key) now G
    → Tracks r.window r.limit
        (times_of (allow r j now).0 key)
        now
        (if (allow r j now).1 && j == key then G ++ (now ∷ []) else G)
allow-Tracks r key j now G h = elim (Bool-cases (key == j)) [
  | inl e ↦
      subst
        (λ (k : String).
          Tracks r.window r.limit (times_of (allow r k now).0 key) now
            (if (allow r k now).1 && k == key then G ++ (now ∷ []) else G))
        (eq_true key j e)
        (rw (times_of-allow, eq_refl key) (rw and_true (allow_same-Tracks r key now G h)))
  | inr e ↦ rw (times_of-allow, eq_sym j key, e, and_false) h
]

-- A run of calls keeps the logs of all keys right.
run-Tracks :
    (w limit : ℕ) (r : RateLimiter) (key : String) (last : ℕ) (cs : List (String × ℕ)) (G : List ℕ)
    → r.window ≡ w
    → r.limit ≡ limit
    → Chronological last cs
    → Tracks w limit (times_of r key) last G
    → Tracks w limit (times_of (run r cs) key) (last_call last cs) (G ++ grants key r cs)
unfolding grants run
run-Tracks w limit r key last [] G ew el c h = rw append-nil h
run-Tracks w limit r key last ((j, now) ∷ cs) G ew el (le, c) h =
    elim (Bool-cases ((allow r j now).1 && j == key)) [
      | inl ok ↦ rw ok (
          rw append_assoc at (
            run-Tracks w limit (allow r j now).0 key now cs (G ++ (now ∷ [])) ew' el' c
              (rw ok at h')))
      | inr refused ↦
          rw refused
            (run-Tracks w limit (allow r j now).0 key now cs G ew' el' c (rw refused at h'))
    ]
  where
    ew' : (allow r j now).0.window ≡ w
    ew' = allow-window r j now ∙ ew

    el' : (allow r j now).0.limit ≡ limit
    el' = allow-limit r j now ∙ el

    h' :
        Tracks w limit
          (times_of (allow r j now).0 key)
          now
          (if (allow r j now).1 && j == key then G ++ (now ∷ []) else G)
    h' =
        subst₂
          (λ w l.
            Tracks w l (times_of (allow r j now).0 key) now
              (if (allow r j now).1 && j == key then G ++ (now ∷ []) else G))
          ew el
          (allow-Tracks r key j now G (
            subst₂ (λ w l. Tracks w l (times_of r key) now G) (sym ew) (sym el)
              (forget w limit now (times_of r key) G le h)))

module _ (limit window : ℤ) (key : String) (start : ℕ) (cs : List (String × ℕ)) where
  new_limiter-Tracks :
      let r = new_rate_limiter limit window in
      Chronological start cs
      → Tracks r.window r.limit (times_of (run r cs) key) (last_call start cs) (grants key r cs)
  new_limiter-Tracks c =
      let r = new_rate_limiter limit window in
      run-Tracks r.window r.limit r key start cs [] refl refl c
        (empty r (new_limiter_empty limit window))
    where
      empty : (r : RateLimiter) → r.calls ≡ [] → Tracks r.window r.limit (times_of r key) start []
      empty r e = record { same = rw e (unfold lookup in refl); bounded = λ s. omega arith }

  -- Let a new limiter serve any calls in the order of the clock. Then every stretch of time that is
  -- as long as its window holds at most `limit` granted calls of a key.
  pub grants-le-limit :
      let r = new_rate_limiter limit window in
      Chronological start cs
      → (s : ℕ) → length (keep (in_window r.window s) (grants key r cs)) ≤ r.limit
  grants-le-limit c s = (new_limiter-Tracks c).bounded s

  -- After any calls in the order of the clock, the next call is granted exactly when fewer than
  -- `limit` calls of its key were granted within the window before it.
  pub allow_exact :
      let r = new_rate_limiter limit window in
      (now : ℕ)
      → Chronological start cs
      → last_call start cs ≤ now
      → (allow (run r cs) key now).1
        ≡ ltb (length (keep (within r.window now) (grants key r cs))) r.limit
  allow_exact now c le =
      let r = new_rate_limiter limit window in
      allow_decides (run r cs) key now r.limit _ (run-limit r cs) (
        ap (λ w. length (keep (within w now) (times_of (run r cs) key))) (run-window r cs)
        ∙ ap length
            (forget r.window r.limit now (times_of (run r cs) key) _ le
              (new_limiter-Tracks c)).same)
