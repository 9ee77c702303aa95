-- ===== src/Daemon/Coordinator/Runs.antt =====
-- Interleavings of the daemon's requests with the goroutines of its runs.
use mcpyeahyouknowme.Prelude.{
  ◌≡◌, refl, inl, inr, Bool, true, false, ◌&&◌, ◌||◌, List, [], ◌∷◌, arith, if◌then◌else◌, length,
  sym, Bool-cases, ◌≤◌,
}
use mathlib.Core.Path.{subst}
use mcpyeahyouknowme.Daemon.Coordinator.{
  cancel_run, Run, Handover, Coordinator, new_index_coordinator, cancel_last, note_restart,
  start_run, request, finish, hand_over, stop,
}

-- What can happen next: a request, the end of a run, a hand-over, the region of Stop.
pub data Step : Coordinator → Coordinator → Type 0 where
  ask : (c : Coordinator) (restart clear full : Bool) → Step c (request restart clear full c)
  done :
      (c : Coordinator) (run : Run) (others : List Run)
      → c.working ≡ run ∷ others
      → Step c (finish others c)
  hand :
      (c : Coordinator) (h : Handover) (others : List Handover)
      → c.handing ≡ h ∷ others
      → Step c (hand_over h others c)
  halt : (c : Coordinator) → Step c (stop c)

pub data Reach (c : Coordinator) : Coordinator → Type 0 where
  here : Reach c c
  next : {d e : Coordinator} → Reach c d → Step d e → Reach c e

-- The flag says whether a run is active, and there is at most one.
pub data IsSerial (c : Coordinator) : Type 0 where
  is_idle : c.running ≡ false → c.working ≡ [] → IsSerial c
  is_busy : (run : Run) → c.running ≡ true → c.working ≡ run ∷ [] → IsSerial c

-- The active run after a request, and its start when there was none.
pub request-busy :
    (c : Coordinator) (r cl f : Bool) (run : Run)
    → c.running ≡ true
    → c.working ≡ run ∷ []
    → ((request r cl f c).running ≡ true)
      × ((request r cl f c).working ≡ (if r && c.has_cancel then cancel_run run else run) ∷ [])
unfolding request note_restart cancel_last
request-busy c r cl f run h w = ground (arith, w)

pub request-idle :
    (c : Coordinator) (r cl f : Bool)
    → c.running ≡ false
    → c.working ≡ []
    → request r cl f c ≡ record {
      running = true;
      restart_pending = false;
      clear_pending = false;
      full_pass_pending = false;
      has_cancel = true;
      working = record { clear_first = cl; full_pass = cl || f; cancelled = false } ∷ [];
      handing = c.handing;
    }
unfolding request start_run
request-idle c r cl f h w = ground (arith, w)

request-IsSerial : (c : Coordinator) (r cl f : Bool) → IsSerial c → IsSerial (request r cl f c)
request-IsSerial c r cl f (is_idle h w) =
    subst IsSerial (sym (request-idle c r cl f h w)) (is_busy _ refl refl)
request-IsSerial c r cl f (is_busy run h w) =
    let after = request-busy c r cl f run h w in is_busy _ after.0 after.1

stop-IsSerial : (c : Coordinator) → IsSerial c → IsSerial (stop c)
unfolding stop cancel_last
stop-IsSerial c (is_idle h w) = is_idle h (ground (arith, w))
stop-IsSerial c (is_busy run h w) = elim (Bool-cases c.has_cancel) [
  | inl b ↦ is_busy (cancel_run run) h (ground (arith, w))
  | inr b ↦ is_busy run h (ground (arith, w))
]

finish-IsSerial :
    (c : Coordinator) (run : Run) (others : List Run)
    → c.working ≡ run ∷ others
    → IsSerial c
    → IsSerial (finish others c)
unfolding finish
finish-IsSerial c run others e (is_idle h w) = is_idle refl (ground arith)
finish-IsSerial c run others e (is_busy run' h w) = is_idle refl (ground arith)

pub hand_over-restart :
    (c : Coordinator) (h : Handover) (others : List Handover)
    → h.restart ≡ true
    → hand_over h others c ≡ request false h.clear_first h.full_pass (record c { handing = others })
unfolding hand_over
hand_over-restart c h others b = ground arith

hand_over-end :
    (c : Coordinator) (h : Handover) (others : List Handover)
    → h.restart ≡ false
    → hand_over h others c ≡ record c { handing = others }
unfolding hand_over
hand_over-end c h others b = ground arith

hand_over-IsSerial :
    (c : Coordinator) (h : Handover) (others : List Handover)
    → IsSerial c
    → IsSerial (hand_over h others c)
unfolding hand_over
hand_over-IsSerial c h others s =
    let c' = record c { handing = others } in
    elim (Bool-cases h.restart) [
      | inl b ↦
          subst IsSerial (sym (hand_over-restart c h others b))
            (request-IsSerial c' false h.clear_first h.full_pass (dropped s))
      | inr b ↦ subst IsSerial (sym (hand_over-end c h others b)) (dropped s)
    ]
  where
    dropped : IsSerial c → IsSerial (record c { handing = others })
    dropped (is_idle x w) = is_idle x w
    dropped (is_busy run x w) = is_busy run x w

Step-IsSerial : {c d : Coordinator} → Step c d → IsSerial c → IsSerial d
Step-IsSerial (ask c r cl f) h = request-IsSerial c r cl f h
Step-IsSerial (done c run others e) h = finish-IsSerial c run others e h
Step-IsSerial (hand c w others e) h = hand_over-IsSerial c w others h
Step-IsSerial (halt c) h = stop-IsSerial c h

Reach-IsSerial : {c d : Coordinator} → Reach c d → IsSerial c → IsSerial d
Reach-IsSerial here h = h
Reach-IsSerial (next r s) h = Step-IsSerial s (Reach-IsSerial r h)

working-IsSerial : (c : Coordinator) → IsSerial c → length c.working ≤ 1
working-IsSerial c (is_idle h w) = ground (arith, w)
working-IsSerial c (is_busy run h w) = ground (arith, w)

-- However requests, ends of runs, hand-overs and Stop are interleaved, at most one index run is active.
pub working-Reach : {c : Coordinator} → Reach new_index_coordinator c → length c.working ≤ 1
working-Reach {c} r = working-IsSerial c (Reach-IsSerial r (is_idle refl refl))

-- After a run has ended, a new request that comes before the hand-over starts its own run, and the
-- restart that was being handed over is dropped, whatever clearing or full pass it asked for.
pub hand_over-after_request :
    (c : Coordinator) (h : Handover) (others : List Handover) (r cl f : Bool)
    → c.running ≡ false
    → c.working ≡ []
    → (hand_over h others (request r cl f c)).working
      ≡ record { clear_first = cl; full_pass = cl || f; cancelled = false } ∷ []
unfolding hand_over request start_run
hand_over-after_request c h others r cl f x w = ground (arith, w)

-- A Stop that comes between the end of a run and the hand-over of its restart does not prevent the new
-- run, and has not cancelled it.
pub hand_over-after_stop :
    (c : Coordinator) (h : Handover) (others : List Handover)
    → h.restart ≡ true
    → c.running ≡ false
    → c.working ≡ []
    → (hand_over h others (stop c)).working
      ≡ record {
        clear_first = h.clear_first;
        full_pass = h.clear_first || h.full_pass;
        cancelled = false;
      }
        ∷ []
unfolding hand_over request start_run stop cancel_last
hand_over-after_stop c h others b x w = elim (Bool-cases c.has_cancel) [
  | inl t ↦ ground (arith, w)
  | inr t ↦ ground (arith, w)
]
