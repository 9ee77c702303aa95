-- ===== src/Core/RateLimiter.antt =====
-- src/core/rate_limiter.go. An instant is a number of nanoseconds after some fixed origin, and the
-- clock that `nowFunc` reads is the argument `now` of `allow`.
pub mod Tracks
pub mod Window
use mcpyeahyouknowme.Prelude.{
  ℕ, ◌+◌, String, Bool, true, false, Option, none, some, List, [], ◌∷◌, ◌++◌, ltb, leb, length,
  keep, if◌then◌else◌, Eq, string_eq,
}
use mcpyeahyouknowme.Prelude.Int.{ℤ, pos, negsuc}
use mcpyeahyouknowme.Prelude.Dict.{Dict, lookup, insert}

pub record RateLimiter : Type 0 where
  pub limit : ℕ
  pub window : ℕ
  pub calls : Dict String (List ℕ)

-- time.Minute
abbrev pub minute : ℕ
minute = 60_000_000_000

at_least_one : ℤ → ℕ
at_least_one (pos n) = if ltb n 1 then 1 else n
at_least_one (negsuc n) = 1

positive_or_minute : ℤ → ℕ
positive_or_minute (pos n) = if leb n 0 then minute else n
positive_or_minute (negsuc n) = minute

unfoldable pub new_rate_limiter : ℤ → ℤ → RateLimiter
unfolding at_least_one positive_or_minute
new_rate_limiter limit window = record {
  limit = at_least_one limit;
  window = positive_or_minute window;
  calls = [];
}

-- t.After(now.Add(-window)), with the window moved to the other side.
abbrev pub within : ℕ → ℕ → ℕ → Bool
within window now t = ltb now (t + window)

abbrev times_in : Option (List ℕ) → List ℕ
times_in none = []
times_in (some times) = times

-- r.calls[key], which is nil for a key that was never seen.
abbrev pub times_of : RateLimiter → String → List ℕ
times_of r key = times_in (lookup key r.calls)

-- The calls of `key` that still count at `now`.
abbrev pub kept_at : RateLimiter → String → ℕ → List ℕ
kept_at r key now = keep (within r.window now) (times_of r key)

unfoldable pub allow : RateLimiter → String → ℕ → RateLimiter × Bool
allow r key now =
    let kept = kept_at r key now in
    if leb r.limit (length kept)
    then (record r { calls = insert key kept r.calls }, false)
    else (record r { calls = insert key (kept ++ (now ∷ [])) r.calls }, true)

-- Allow on a receiver that may be nil.
unfoldable pub allow_nil : Option RateLimiter → String → ℕ → Option RateLimiter × Bool
unfolding allow
allow_nil none key now = (none, true)
allow_nil (some r) key now = let (r', ok) = allow r key now in (some r', ok)
