-- ===== src/Daemon/Coordinator/Restart.antt =====
-- What becomes of the requests that come in during a run.
use mcpyeahyouknowme.Prelude.{
  ◌≡◌, refl, ap, ◌∙◌, Bool, true, false, ◌&&◌, ◌||◌, List, [], ◌∷◌, ◌++◌, arith, if◌then◌else◌,
  Bool-cases, inl, inr,
}
use mcpyeahyouknowme.Daemon.Coordinator.{
  Handover, Coordinator, note_restart, start_run, request, finish, hand_over,
}

pub record Ask : Type 0 where
  pub restart_if_running : Bool
  pub clear_first : Bool
  pub full_pass : Bool

abbrev pub ask_all : List Ask → Coordinator → Coordinator
ask_all [] c = c
ask_all (a ∷ asks) c = ask_all asks (request a.restart_if_running a.clear_first a.full_pass c)

-- The restart that a run's requests add up to: only those that may interrupt count.
abbrev pub combined : List Ask → Handover → Handover
combined [] h = h
combined (a ∷ asks) h = combined asks (record {
  restart = h.restart || a.restart_if_running;
  clear_first = h.clear_first || (a.restart_if_running && a.clear_first);
  full_pass = h.full_pass || (a.restart_if_running && (a.clear_first || a.full_pass));
})

abbrev pub pending : Coordinator → Handover
pending c = record {
  restart = c.restart_pending;
  clear_first = c.clear_pending;
  full_pass = c.full_pass_pending;
}

abbrev pub no_restart : Handover
no_restart = record { restart = false; clear_first = false; full_pass = false }

or_false : (b : Bool) → (b || false) ≡ b
or_false true = refl
or_false false = refl

request-pending :
    (c : Coordinator) (a : Ask)
    → c.running ≡ true
    → pending (request a.restart_if_running a.clear_first a.full_pass c)
      ≡ combined (a ∷ []) (pending c)
unfolding request note_restart
request-pending c a h = elim (Bool-cases a.restart_if_running) [
  | inl t ↦ ground arith
  | inr t ↦
      ground
        (arith, or_false c.restart_pending, or_false c.clear_pending, or_false c.full_pass_pending)
]

request-running :
    (c : Coordinator) (a : Ask)
    → c.running ≡ true
    → ((request a.restart_if_running a.clear_first a.full_pass c).running ≡ true)
      × ((request a.restart_if_running a.clear_first a.full_pass c).handing ≡ c.handing)
unfolding request note_restart
request-running c a h = ground arith

ask_all-pending :
    (c : Coordinator) (asks : List Ask)
    → c.running ≡ true
    → (pending (ask_all asks c) ≡ combined asks (pending c))
      × ((ask_all asks c).handing ≡ c.handing)
ask_all-pending c [] h = (refl, refl)
ask_all-pending c (a ∷ asks) h =
    let now = request-running c a h in
    let rest =
      ask_all-pending (request a.restart_if_running a.clear_first a.full_pass c) asks now.0 in
    (rest.0 ∙ ap (combined asks) (request-pending c a h), rest.1 ∙ now.1)

finish-handing : (c : Coordinator) → (finish [] c).handing ≡ c.handing ++ (pending c ∷ [])
unfolding finish
finish-handing c = refl

hand_over-idle :
    (h : Handover) (c : Coordinator)
    → (hand_over h [] (finish [] c)).working ≡ (
        if h.restart
        then record {
          clear_first = h.clear_first;
          full_pass = h.clear_first || h.full_pass;
          cancelled = false;
        }
          ∷ []
        else [])
unfolding hand_over request start_run finish
hand_over-idle h c = ground arith

-- For a run that started with nothing pending, whatever requests come in before it ends: its goroutine
-- takes over the combination of those that may interrupt (any restart, any clearing, any full pass), and
-- when it hands over undisturbed, exactly that combination is run next, or nothing.
pub hand_over-ask_all :
    (c : Coordinator) (asks : List Ask)
    → c.running ≡ true
    → c.handing ≡ []
    → pending c ≡ no_restart
    → let h = combined asks no_restart in
      let ended = finish [] (ask_all asks c) in
      (ended.handing ≡ h ∷ [])
      × ((hand_over h [] ended).working ≡ (
          if h.restart
          then record {
            clear_first = h.clear_first;
            full_pass = h.clear_first || h.full_pass;
            cancelled = false;
          }
            ∷ []
          else []))
hand_over-ask_all c asks run none fresh =
    let now = ask_all-pending c asks run in
    (
      finish-handing (ask_all asks c)
          ∙ ap (λ l. l ++ (pending (ask_all asks c) ∷ [])) (now.1 ∙ none)
          ∙ ap (λ h. h ∷ []) (now.0 ∙ ap (combined asks) fresh),
      hand_over-idle (combined asks no_restart) (ask_all asks c),
    )
