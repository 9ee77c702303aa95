-- ===== src/Daemon/Coordinator.antt =====
-- indexCoordinator of src/runtime.go. Each region that holds the mutex is one function; a goroutine is
-- either running `start` or, behind its second region, about to hand over to the next run.
pub mod Runs
pub mod Restart
use mcpyeahyouknowme.Prelude.{
  Bool, true, false, not, ◌&&◌, ◌||◌, List, [], ◌∷◌, ◌++◌, map, if◌then◌else◌,
}

-- One call of `start`, with the state of its context.
pub record Run : Type 0 where
  pub clear_first : Bool
  pub full_pass : Bool
  pub cancelled : Bool

-- What a goroutine took over in its second region.
pub record Handover : Type 0 where
  pub restart : Bool
  pub clear_first : Bool
  pub full_pass : Bool

-- The coordinator's fields; `working` and `handing` are its goroutines, and `cancel` is nil or the cancel
-- function of the last run that was started.
pub record Coordinator : Type 0 where
  pub running : Bool
  pub restart_pending : Bool
  pub clear_pending : Bool
  pub full_pass_pending : Bool
  pub has_cancel : Bool
  pub working : List Run
  pub handing : List Handover

abbrev pub new_index_coordinator : Coordinator
new_index_coordinator = record {
  running = false;
  restart_pending = false;
  clear_pending = false;
  full_pass_pending = false;
  has_cancel = false;
  working = [];
  handing = [];
}

abbrev pub cancel_run : Run → Run
cancel_run run = record run { cancelled = true }

-- c.cancel(), if it is set: the last run that was started.
unfoldable pub cancel_last : List Run → List Run
cancel_last [] = []
cancel_last (run ∷ []) = cancel_run run ∷ []
cancel_last (run ∷ next ∷ runs) = run ∷ cancel_last (next ∷ runs)

-- Request while a run is active.
unfoldable pub note_restart : Bool → Bool → Bool → Coordinator → Coordinator
unfolding cancel_last
note_restart restart_if_running clear_first full_pass c =
    if restart_if_running
    then record c {
      restart_pending = true;
      clear_pending = c.clear_pending || clear_first;
      full_pass_pending = c.full_pass_pending || full_pass;
      working = if c.has_cancel then cancel_last c.working else c.working;
    }
    else c

unfoldable pub start_run : Bool → Bool → Coordinator → Coordinator
start_run clear_first full_pass c = record c {
  running = true;
  restart_pending = false;
  clear_pending = false;
  full_pass_pending = false;
  has_cancel = true;
  working =
      c.working
      ++ (record { clear_first = clear_first; full_pass = full_pass; cancelled = false } ∷ []);
}

unfoldable pub request : Bool → Bool → Bool → Coordinator → Coordinator
unfolding note_restart start_run
request restart_if_running clear_first full_pass c =
    let full = if clear_first then true else full_pass in
    if c.running
    then note_restart restart_if_running clear_first full c
    else start_run clear_first full c

-- The second region of the goroutine that is left first in `working`.
unfoldable pub finish : List Run → Coordinator → Coordinator
finish others c = record c {
  running = false;
  has_cancel = false;
  restart_pending = false;
  clear_pending = false;
  full_pass_pending = false;
  working = others;
  handing =
      c.handing
      ++ (record {
        restart = c.restart_pending;
        clear_first = c.clear_pending;
        full_pass = c.full_pass_pending;
      }
          ∷ []);
}

-- The end of a goroutine: `if restart { c.Request(false, clearFirstNext, fullPassNext) }`.
unfoldable pub hand_over : Handover → List Handover → Coordinator → Coordinator
unfolding request
hand_over h others c =
    let c' = record c { handing = others } in
    if h.restart then request false h.clear_first h.full_pass c' else c'

-- The region of Stop; it then waits until no goroutine is left.
unfoldable pub stop : Coordinator → Coordinator
unfolding cancel_last
stop c = record c {
  restart_pending = false;
  clear_pending = false;
  full_pass_pending = false;
  working = if c.has_cancel then cancel_last c.working else c.working;
}
