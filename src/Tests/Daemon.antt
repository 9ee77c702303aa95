-- ===== src/Tests/Daemon.antt =====
-- Index runs, services and passes of the daemon.
use mcpyeahyouknowme.Prelude.{
  ℕ, ◌≤◌, ◌≡◌, ◌⊎◌, refl, String, ◌&&◌, ◌||◌, Bool, true, false, not, Option, none, some, List, [],
  ◌∷◌, if◌then◌else◌, ◌==◌, length, map, string_eq, nat_eq,
}
use mcpyeahyouknowme.Prelude.Dict.{lookup, insert}
use mcpyeahyouknowme.Core.Config.{Config, Codec, SaveOutcome, zero_mcp, source_of}
use mcpyeahyouknowme.Search.Tables.{key_eq, upsert, Key, Db, empty_db, IndexKey}
use mcpyeahyouknowme.Search.Tables.Laws.{fields_at}
use mcpyeahyouknowme.Search.Exec.{transaction, ok, SearchStore}
use mcpyeahyouknowme.Search.Store.{
  insert_keys, rebuild_fts_if_needed, refresh_fts, upsert_entries, index_entries, SearchEntry,
  key_of, prune_source_keys,
}
use mcpyeahyouknowme.Search.Store.Writes.{latest}
use mcpyeahyouknowme.Daemon.Coordinator.{
  Run, Handover, Coordinator, new_index_coordinator, request, finish, hand_over, stop,
}
use mcpyeahyouknowme.Daemon.Coordinator.Runs.{
  ask, done, Reach, here, next, working-Reach, hand_over-after_request, hand_over-after_stop,
}
use mcpyeahyouknowme.Daemon.Coordinator.Restart.{
  Ask, ask_all, combined, no_restart, hand_over-ask_all,
}
use mcpyeahyouknowme.Daemon.Registry.{Descriptor}
use mcpyeahyouknowme.Daemon.Services.{
  Service, Services, World, tick, can_start, start_source, stop_service, service_ended,
  should_restart_source,
}
use mcpyeahyouknowme.Daemon.Services.Running.{runs}
use mcpyeahyouknowme.Daemon.Services.Tick.{runs-tick}
use mcpyeahyouknowme.Daemon.Services.Restarted.{active, start_source-restarted}
use mcpyeahyouknowme.Daemon.Indexer.{
  SourceIndexer, search_indexer, Contents, streamed, ActiveSource, index_source_entries, conclude,
  complete, index_source, should_index_source, index_key,
}
use mcpyeahyouknowme.Daemon.Indexer.Search.{entries_of, index_source_entries-complete}
use mcpyeahyouknowme.Daemon.Indexer.FullPass.{conclude-fields}
use mcpyeahyouknowme.Daemon.Indexer.Watermark.{index_source-other, index_source-watermark}

abbrev first_run : Coordinator
first_run = request false false true new_index_coordinator

-- A full pass runs, is asked to clear, and ends.
abbrev ended : Coordinator
ended = finish [] (request true true false first_run)

abbrev full_run : Bool → Run
full_run cancelled = record { clear_first = false; full_pass = true; cancelled = cancelled }

ended-Reach : Reach new_index_coordinator ended
unfolding request
ended-Reach =
    next
      (next (next here (ask new_index_coordinator false false true))
        (ask first_run true true false))
      (done (request true true false first_run) (full_run true) [] refl)

working-Reach_example : length ended.working ≤ 1
working-Reach_example = working-Reach ended-Reach

abbrev restart : Handover
restart = record { restart = true; clear_first = true; full_pass = true }

abbrev idle : Coordinator
idle = new_index_coordinator

hand_over-after_request_example :
    (hand_over restart [] (request false false false idle)).working
    ≡ record { clear_first = false; full_pass = false; cancelled = false } ∷ []
hand_over-after_request_example =
    hand_over-after_request idle restart [] false false false refl refl

hand_over-after_stop_example :
    (hand_over restart [] (stop idle)).working
    ≡ record { clear_first = true; full_pass = true; cancelled = false } ∷ []
hand_over-after_stop_example = hand_over-after_stop idle restart [] refl refl refl

abbrev busy : Coordinator
busy = record new_index_coordinator {
  running = true;
  has_cancel = true;
  working = full_run false ∷ [];
}

abbrev asks : List Ask
asks =
    record { restart_if_running = false; clear_first = false; full_pass = false }
    ∷ record { restart_if_running = true; clear_first = true; full_pass = false }
    ∷ []

hand_over-ask_all_example :
    let h = combined asks no_restart in
    let after = finish [] (ask_all asks busy) in
    (after.handing ≡ h ∷ [])
    × ((hand_over h [] after).working ≡ (
        if h.restart
        then record {
          clear_first = h.clear_first;
          full_pass = h.clear_first || h.full_pass;
          cancelled = false;
        }
          ∷ []
        else []))
hand_over-ask_all_example = hand_over-ask_all busy asks refl refl refl

abbrev registry : List Descriptor
registry =
    record {
      name = "whatsapp";
      source = some (record { core_service = some true });
      is_enabled = none;
      is_authenticated = some true;
      index_globally = true;
      runs_core = true;
    }
    ∷ []

can_start_whatsapp : can_start registry "whatsapp" ≡ true
unfolding can_start string_eq
can_start_whatsapp = refl

abbrev settings : String → Config
settings auth = record {
  sources = some (("whatsapp", record { enabled = true; reset = false; auth = auth }) ∷ []);
  mcp = zero_mcp;
}

abbrev plain : Codec Config
plain = record { encode = λ cfg. some cfg; decode = λ cfg. some cfg }

abbrev calls : SaveOutcome Config
calls = record { mkdir_ok = true; write_ok = true; written = none; rename_ok = true }

abbrev old_service : Service
old_service = record { id = 4; name = "whatsapp"; cancelled = false }

abbrev services : Services
services = record { running = ("whatsapp", 4) ∷ []; live = old_service ∷ []; next_id = 5 }

abbrev world : World Config
world = record {
  disk = record { config_file = some (settings "b"); temp_file = none };
  search = none;
  resets = [];
}

runs-tick_example :
    let sc = source_of (settings "b") "whatsapp" in
    runs "whatsapp" (tick registry [] plain calls (settings "a") (settings "b") services world).1
    ≡ (sc.enabled
        && (not sc.reset
            && (can_start registry "whatsapp"
                || (runs "whatsapp" services
                    && not (should_restart_source (source_of (settings "a") "whatsapp") sc)))))
runs-tick_example =
    runs-tick registry [] plain calls (settings "a") (settings "b") services world "whatsapp"

new_number : (5 == old_service.id) ≡ false
unfolding nat_eq
new_number = refl

start_source-restarted_example :
    let s' =
      service_ended old_service
        (start_source registry "whatsapp" (stop_service "whatsapp" services)) in
    (runs "whatsapp" s' ≡ false) × (2 ≤ active "whatsapp" (start_source registry "whatsapp" s'))
start_source-restarted_example =
    start_source-restarted registry "whatsapp" services old_service can_start_whatsapp refl
      new_number

abbrev note : String → SearchEntry
note content = record {
  source = "notebook";
  source_id = "a.md#0";
  content_type = "note";
  title = "a";
  content = content;
  metadata = "";
  timestamp = none;
}

abbrev notes : Contents
notes = streamed ((note "old" ∷ []) ∷ [] ∷ (note "new" ∷ []) ∷ []) none

abbrev time_text : ℕ → String
time_text n = "then"

abbrev no_time : String → Option ℕ
no_time text = none

abbrev no_count : Db → ℕ
no_count db = 1

abbrev ix : SourceIndexer SearchStore
ix = search_indexer time_text no_time no_count

abbrev store : SearchStore
store = record { db = empty_db; bulk_fts = false; faults = [] }

abbrev note_keys : List IndexKey
note_keys = index_key (note "old") ∷ index_key (note "new") ∷ []

read_notes : (index_source_entries ix notes none store).0 ≡ complete note_keys
unfolding index_source_entries index_entries transaction upsert_entries refresh_fts
    rebuild_fts_if_needed nat_eq upsert lookup
read_notes = refl

index_source_entries-complete_example :
    (note_keys ≡ map index_key (entries_of notes))
    × ((k : Key)
        → fields_at k (index_source_entries ix notes none store).2.db
          ≡ latest time_text k (entries_of notes) (fields_at k store.db))
index_source_entries-complete_example =
    index_source_entries-complete time_text no_time no_count notes none store note_keys read_notes

pruned_notes :
    (prune_source_keys "notebook" note_keys (index_source_entries ix notes none store).2).0 ≡ ok tt
unfolding prune_source_keys index_source_entries transaction index_entries upsert_entries
    refresh_fts rebuild_fts_if_needed nat_eq upsert lookup key_eq string_eq insert insert_keys
pruned_notes = refl

conclude-fields_example :
    fields_at
      (key_of (note "new"))
      (conclude ix (λ name. 9) true "notebook" (index_source_entries ix notes none store)).2.db
    ≡ (if (key_of (note "new")).source == "notebook"
        then latest time_text (key_of (note "new")) (entries_of notes) none
        else fields_at (key_of (note "new")) store.db)
conclude-fields_example =
    conclude-fields time_text no_time no_count (λ name. 9) "notebook" notes none store note_keys
      (key_of (note "new")) (refl, (refl, tt)) read_notes pruned_notes

abbrev notebook : ActiveSource
notebook = record {
  name = "notebook";
  index_globally = true;
  has_changes_since = none;
  contents = notes;
}

abbrev gmail : String
gmail = "gmail"

gmail_other : (gmail == notebook.name) ≡ false
unfolding string_eq
gmail_other = refl

index_source-other_example :
    lookup "gmail" (index_source ix (λ name. 9) true notebook none store).2.db.meta
    ≡ lookup "gmail" store.db.meta
index_source-other_example =
    index_source-other time_text no_time no_count (λ name. 9) true notebook none store "gmail"
      gmail_other

index_source-watermark_example :
    let s' = (should_index_source ix true notebook store).1 in
    ((index_source ix (λ name. 9) true notebook (some 1) store).2.db.meta ≡ store.db.meta)
    ⊎ ((keys : List IndexKey) × ((index_source_entries ix notes (some 1) s').0 ≡ complete keys))
index_source-watermark_example =
    index_source-watermark time_text no_time no_count (λ name. 9) true notebook (some 1) store
