-- ===== src/Core/SecureAdder/Rate.antt =====
-- How often the handler of a mutating tool can run while the server answers its calls.
use mcpyeahyouknowme.Prelude.{
  ℕ, ◌≤◌, ◌≡◌, refl, ◌∙◌, ap, String, Bool, true, false, not, ◌&&◌, ◌||◌, List, [], ◌∷◌, ◌++◌,
  arith, if◌then◌else◌, string_eq, keep, All, length, ◌==◌, Bool-cases, inl, inr,
}
use mathlib.Core.Path.{subst₂}
use mcpyeahyouknowme.Prelude.Int.{pos}
use mcpyeahyouknowme.Core.RateLimiter.{RateLimiter, new_rate_limiter, allow, minute}
use mcpyeahyouknowme.Core.RateLimiter.Window.{Chronological, grants, grants-le-limit}
use mcpyeahyouknowme.Core.RateLimiter.Tracks.{in_window}
use mcpyeahyouknowme.Core.Config.{McpConfig, effective_mutating_tools_per_min}
use mcpyeahyouknowme.Core.SecureAdder.{
  Tool, tool_needs_rate_limit, Shared, Handler, pass, wrapped, SecureToolAdder,
  new_secure_tool_adder,
}

pass-mutating :
    (tool : Tool) (now : ℕ) (limiter : RateLimiter)
    → tool_needs_rate_limit tool ≡ true
    → pass tool now limiter ≡ allow limiter tool.name now
unfolding pass
pass-mutating tool now limiter e = ground arith

pass-read_only :
    (tool : Tool) (now : ℕ) (limiter : RateLimiter)
    → tool_needs_rate_limit tool ≡ false
    → pass tool now limiter ≡ (limiter, true)
unfolding pass
pass-read_only tool now limiter e = ground arith

-- Requests in the order in which they reach the server.
pub record Request (Args : Type 0) : Type 0 where
  pub tool : Tool
  pub args : Args
  pub now : ℕ

Chronological-le :
    (a b : ℕ) (cs : List (String × ℕ)) → a ≤ b → Chronological b cs → Chronological a cs
Chronological-le a b [] le c = tt
Chronological-le a b ((_, now) ∷ cs) le (first, c) = (omega arith, c)

module _ {Args : Type 0} where
  abbrev pub InOrder : ℕ → List (Request Args) → Type 0
  InOrder last [] = Unit
  InOrder last (q ∷ qs) = (last ≤ q.now) × InOrder q.now qs

  -- Every tool of that name in the requests is mutating.
  abbrev pub IsMutating : String → List (Request Args) → Type 0
  IsMutating key = All (λ q. (tool_needs_rate_limit q.tool || not (q.tool.name == key)) ≡ true)

  mutating_calls : List (Request Args) → List (String × ℕ)
  mutating_calls [] = []
  mutating_calls (q ∷ qs) =
      let rest = mutating_calls qs in
      if tool_needs_rate_limit q.tool then (q.tool.name, q.now) ∷ rest else rest

  mutating_calls-Chronological :
      (last : ℕ) (qs : List (Request Args))
      → InOrder last qs
      → Chronological last (mutating_calls qs)
  unfolding mutating_calls
  mutating_calls-Chronological last [] h = tt
  mutating_calls-Chronological last (q ∷ qs) (first, h) =
      let later = mutating_calls-Chronological q.now qs h in
      elim (Bool-cases (tool_needs_rate_limit q.tool)) [
        | inl e ↦ rw e (first, later)
        | inr e ↦ rw e (Chronological-le last q.now _ first later)
      ]

other_name : (n k : Bool) → (n || not k) ≡ true → n ≡ false → k ≡ false
other_name n k h e = ground arith

-- The limiter of a server has the configured limit and a window of one minute.
adder_limiter :
    (cfg : McpConfig)
    → let r = new_rate_limiter (pos (effective_mutating_tools_per_min cfg)) (pos minute) in
      (r.limit ≡ effective_mutating_tools_per_min cfg) × (r.window ≡ minute)
unfolding new_rate_limiter effective_mutating_tools_per_min
adder_limiter cfg = ground arith

module _ {Args Result World Audit : Type 0} (log : Audit → String → Args → Audit)
    (tool_error : String → Result) (handlers : Tool → Handler Args Result World) where
  -- The handler of a request, which notes the instant at which it is entered if the tool has that name.
  noting : String → Request Args → Handler Args Result (World × List ℕ)
  noting key q args (world, notes) =
      let (result, world') = handlers q.tool args world in
      (result, (world', if q.tool.name == key then q.now ∷ notes else notes))

  abbrev with_notes : Shared Audit World → Shared Audit (World × List ℕ)
  with_notes s = record { audit = s.audit; limiter = s.limiter; world = (s.world, []) }

  abbrev without_notes : Shared Audit (World × List ℕ) → Shared Audit World
  without_notes s = record { audit = s.audit; limiter = s.limiter; world = s.world.0 }

  -- One request as `wrapped` serves it.
  abbrev served : String → Request Args → Shared Audit World → Shared Audit (World × List ℕ)
  served key q s = (wrapped log tool_error q.tool (noting key q) q.now q.args (with_notes s)).1

  -- The instants at which `wrapped` enters a handler of a tool with that name.
  pub ran : String → Shared Audit World → List (Request Args) → List ℕ
  ran key s [] = []
  ran key s (q ∷ qs) = let s' = served key q s in s'.world.1 ++ ran key (without_notes s') qs

  -- The gate enters the handler when the limiter grants the call.
  served-notes :
      (key : String) (q : Request Args) (s : Shared Audit World)
      → (served key q s).world.1
        ≡ (if (pass q.tool q.now s.limiter).1 && q.tool.name == key then q.now ∷ [] else [])
  unfolding wrapped noting
  served-notes key q s = ground arith

  served-limiter :
      (key : String) (q : Request Args) (s : Shared Audit World)
      → (served key q s).limiter ≡ (pass q.tool q.now s.limiter).0
  unfolding wrapped
  served-limiter key q s = ground arith

  -- The handlers run when the limiter grants a call.
  ran-eq-grants :
      (key : String) (s : Shared Audit World) (qs : List (Request Args))
      → IsMutating key qs
      → ran key s qs ≡ grants key s.limiter (mutating_calls qs)
  unfolding ran grants mutating_calls
  ran-eq-grants key s [] m = refl
  ran-eq-grants key s (q ∷ qs) (here, m) =
      let rest =
        ran-eq-grants key (without_notes (served key q s)) qs m
        ∙ ap (λ r. grants key r (mutating_calls qs)) (served-limiter key q s) in
      elim (Bool-cases (tool_needs_rate_limit q.tool)) [
        | inl e ↦
            rw (e, rest, served-notes key q s)
              (rw (pass-mutating q.tool q.now s.limiter e) (ground arith))
        | inr e ↦
            rw (e, rest, served-notes key q s)
              (rw (pass-read_only q.tool q.now s.limiter e)
                (rw (other_name (tool_needs_rate_limit q.tool) (q.tool.name == key) here e) refl))
      ]

  -- A mutating tool runs at most `mutating_tools_per_min` times, by default 10 times, in any minute,
  -- whatever else the server is asked in between.
  pub ran-le-limit :
      (cfg : McpConfig) (audit : Audit) (world : World) (key : String) (start : ℕ)
      (qs : List (Request Args))
      → InOrder start qs
      → IsMutating key qs
      → (t : ℕ)
      → let adder : SecureToolAdder (Handler Args Result World) = new_secure_tool_adder cfg in
        let s : Shared Audit World = record {
          audit = audit;
          limiter = adder.limiter;
          world = world;
        } in
        length (keep (in_window minute t) (ran key s qs)) ≤ effective_mutating_tools_per_min cfg
  unfolding new_secure_tool_adder
  ran-le-limit cfg audit world key start qs order m t =
      let n = effective_mutating_tools_per_min cfg in
      let r = new_rate_limiter (pos n) (pos minute) in
      let calls = mutating_calls qs in
      rw (ran-eq-grants key _ qs m) (
        subst₂ (λ (l w : ℕ). length (keep (in_window w t) (grants key r calls)) ≤ l)
          (adder_limiter cfg).0 (adder_limiter cfg).1
          (grants-le-limit (pos n) (pos minute) key start calls
            (mutating_calls-Chronological start qs order) t))
