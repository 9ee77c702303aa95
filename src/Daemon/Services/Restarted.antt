-- ===== src/Daemon/Services/Restarted.antt =====
-- A source that is restarted while its old goroutine has not returned yet.
use mcpyeahyouknowme.Prelude.{
  ℕ, ◌+◌, ◌≤◌, ◌≡◌, refl, ap, ◌∙◌, String, Bool, true, false, not, ◌&&◌, List, [], ◌∷◌, ◌++◌, arith,
  ◌==◌, string_eq, nat_eq, eq_refl, keep, length, keep-append, length-append,
}
use mcpyeahyouknowme.Daemon.Registry.{Descriptor}
use mcpyeahyouknowme.Daemon.Services.{
  Service, Services, stop_service, service_ended, can_start, start_source,
}
use mcpyeahyouknowme.Daemon.Services.Running.{runs, contains-erase}

abbrev is_active : String → Service → Bool
is_active name s = s.name == name && not s.cancelled

-- How many goroutines run a source without having been cancelled.
abbrev pub active : String → Services → ℕ
active name s = length (keep (is_active name) s.live)

fresh : String → Services → Service
fresh name s = record { id = s.next_id; name = name; cancelled = false }

fresh-active : (name : String) (s : Services) → is_active name (fresh name s) ≡ true
unfolding fresh
fresh-active name s = ground (arith, eq_refl name)

active-append :
    (name : String) (live : List Service) (x : Service)
    → is_active name x ≡ true
    → length (keep (is_active name) (live ++ (x ∷ []))) ≡ length (keep (is_active name) live) + 1
active-append name live x h = ground (
  arith,
  keep-append (is_active name) live (x ∷ []),
  length-append (keep (is_active name) live) (x ∷ []),
)

module _ (registry : List Descriptor) where
  start_source-active :
      (name : String) (s : Services)
      → can_start registry name ≡ true
      → active name (start_source registry name s) ≡ active name s + 1
  unfolding start_source fresh
  start_source-active name s h =
      ground (arith, active-append name s.live (fresh name s) (fresh-active name s))

  next_id-stop_service : (name : String) (s : Services) → (stop_service name s).next_id ≡ s.next_id
  unfolding stop_service
  next_id-stop_service name s = ground arith

  live-start_source :
      (name : String) (s : Services)
      → can_start registry name ≡ true
      → (start_source registry name s).live ≡ s.live ++ (fresh name s ∷ [])
  unfolding start_source fresh
  live-start_source name s h = rw h refl

  keep-fresh :
      (name : String) (s : Services) (old : Service)
      → (s.next_id == old.id) ≡ false
      → keep (λ l. not (l.id == old.id)) (s.live ++ (fresh name s ∷ []))
        ≡ keep (λ l. not (l.id == old.id)) s.live ++ (fresh name s ∷ [])
  unfolding fresh
  keep-fresh name s old h =
      ground (arith, keep-append (λ (l : Service). not (l.id == old.id)) s.live (fresh name s ∷ []))

  active-service_ended :
      (name : String) (s : Services) (old : Service)
      → can_start registry name ≡ true
      → (s.next_id == old.id) ≡ false
      → 1 ≤ active name (service_ended old (start_source registry name s))
  unfolding service_ended
  active-service_ended name s old h new =
      let others = keep (λ (l : Service). not (l.id == old.id)) s.live in
      omega (
        arith,
        ap
              (λ live.
                length (keep (is_active name) (keep (λ (l : Service). not (l.id == old.id)) live)))
              (live-start_source name s h)
            ∙ ap (λ live. length (keep (is_active name) live)) (keep-fresh name s old new)
            ∙ active-append name others (fresh name s) (fresh-active name s),
      )

  runs-service_ended :
      (name : String) (s : Services) (old : Service)
      → old.name ≡ name
      → runs name (service_ended old s) ≡ false
  unfolding service_ended
  runs-service_ended name s old same =
      contains-erase old.name name s.running ∙ (rw same (ground (arith, eq_refl name)))

  -- A source that was restarted, and whose old goroutine returns after that: its name is gone from
  -- `running`, so the next start makes a second active goroutine beside the restarted one.
  pub start_source-restarted :
      (name : String) (s : Services) (old : Service)
      → can_start registry name ≡ true
      → old.name ≡ name
      → (s.next_id == old.id) ≡ false
      → let restarted = start_source registry name (stop_service name s) in
        let s' = service_ended old restarted in
        (runs name s' ≡ false) × (2 ≤ active name (start_source registry name s'))
  start_source-restarted name s old h same new =
      let stopped = stop_service name s in
      let s' = service_ended old (start_source registry name stopped) in
      (
        runs-service_ended name (start_source registry name stopped) old same,
        omega (
          arith,
          start_source-active name s' h,
          active-service_ended name stopped old h
              (ap (λ i. i == old.id) (next_id-stop_service name s) ∙ new),
        ),
      )
