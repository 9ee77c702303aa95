-- ===== src/Daemon/Services/Tick.antt =====
-- Which services run after a tick.
use mcpyeahyouknowme.Prelude.{
  ◌≡◌, refl, ap, ◌∙◌, String, Bool, true, false, not, ◌&&◌, ◌||◌, List, arith, if◌then◌else◌, ◌==◌,
  contains, string_eq, eq_true, Bool-cases, Option-cases, inl, inr,
}
use mcpyeahyouknowme.Prelude.Dict.{lookup, lookup-insert}
use mcpyeahyouknowme.Core.Config.{
  Config, SourceConfig, Codec, SaveOutcome, zero_source, source_map, source_of, with_source,
}
use mcpyeahyouknowme.Daemon.Registry.{Descriptor}
use mcpyeahyouknowme.Daemon.Services.{
  Services, World, keys_of, should_restart_source, stop_service, each, can_start, start_source,
  handle_reset, reset_one, restart_one, start_one, end_one, tick,
}
use mcpyeahyouknowme.Daemon.Services.Running.{
  each_lem, contains-keys_of, guards, start_guards, due_last, runs, runs-stop_service,
  runs-start_source,
}

module _ (registry : List Descriptor) where
  module _ {Bytes : Type 0} (known : List String) (codec : Codec Bytes)
      (io : SaveOutcome Bytes) where
    -- What a reset does to a name: its setting, and whether it runs.
    abbrev Seen : Type 0
    Seen = SourceConfig × Bool

    seen : String → Config × Services × World Bytes → Seen
    seen n (cfg, s, w) = (source_of cfg n, runs n s)

    reset_seen : String → Seen → Seen
    reset_seen n (sc, b) = if sc.reset then (zero_source, false) else (sc, b)

    source_of-with_source :
        (cfg : Config) (m n : String) (sc : SourceConfig)
        → source_of (with_source cfg m sc) n ≡ (if n == m then sc else source_of cfg n)
    source_of-with_source cfg m n sc = ground (arith, lookup-insert n m sc (source_map cfg))

    reset_one-on :
        (m n : String) (cfg : Config) (s : Services) (w : World Bytes)
        → (source_of cfg m).reset ≡ true
        → seen n (reset_one registry known codec io m (cfg, s, w))
          ≡ (source_of (with_source cfg m zero_source) n, runs n (stop_service m s))
    unfolding reset_one handle_reset seen
    reset_one-on m n cfg s w h = rw h refl

    reset_one-off :
        (m n : String) (cfg : Config) (s : Services) (w : World Bytes)
        → (source_of cfg m).reset ≡ false
        → seen n (reset_one registry known codec io m (cfg, s, w)) ≡ seen n (cfg, s, w)
    unfolding reset_one seen
    reset_one-off m n cfg s w h = rw h refl

    seen-reset_one :
        (m n : String) (st : Config × Services × World Bytes)
        → seen n (reset_one registry known codec io m st)
          ≡ (if n == m then reset_seen n (seen n st) else seen n st)
    unfolding seen reset_seen
    seen-reset_one m n (cfg, s, w) = elim (Bool-cases (source_of cfg m).reset) [
      | inl h ↦
          reset_one-on m n cfg s w h
          ∙ ap (λ sc. (sc, runs n (stop_service m s))) (source_of-with_source cfg m n zero_source)
          ∙ ap (λ b. (if n == m then zero_source else source_of cfg n, b)) (runs-stop_service m n s)
          ∙ (elim (Bool-cases (n == m)) [
            | inl t ↦ ground (arith, ap (λ k. (source_of cfg k).reset) (eq_true n m t) ∙ h)
            | inr t ↦ ground arith
          ])
      | inr h ↦ reset_one-off m n cfg s w h ∙ (elim (Bool-cases (n == m)) [
        | inl t ↦ ground (arith, ap (λ k. (source_of cfg k).reset) (eq_true n m t) ∙ h)
        | inr t ↦ ground arith
      ])
    ]

    source_of-absent :
        (cfg : Config) (n : String)
        → contains (keys_of (source_map cfg)) n ≡ false
        → source_of cfg n ≡ zero_source
    source_of-absent cfg n h = elim (Option-cases (lookup n (source_map cfg))) [
      | inl e ↦ ground arith
      | inr (sc, e) ↦ ground (arith, contains-keys_of (source_map cfg) n)
    ]

    seen-resets :
        (loaded : Config) (s : Services) (w : World Bytes) (n : String)
        → seen n
            (each (reset_one registry known codec io) (keys_of (source_map loaded)) (loaded, s, w))
          ≡ reset_seen n (source_of loaded n, runs n s)
    unfolding seen reset_seen
    seen-resets loaded s w n =
        each_lem (reset_one registry known codec io) seen reset_seen seen-reset_one
          (λ n o. ground arith) (keys_of (source_map loaded)) n (loaded, s, w)
        ∙ (elim (Bool-cases (contains (keys_of (source_map loaded)) n)) [
          | inl t ↦ ground arith
          | inr t ↦ ground (arith, ap SourceConfig.reset (source_of-absent loaded n t))
        ])

    module _ (cfg new_cfg : Config) where
      abbrev exists : String → Bool
      exists n = contains (keys_of (source_map new_cfg)) n

      changed : String → Bool
      changed n =
          let next = source_of new_cfg n in
          exists n
          && (next.enabled && (not next.reset && should_restart_source (source_of cfg n) next))

      due : String → Bool
      due n =
          let next = source_of new_cfg n in next.enabled && (not next.reset && can_start registry n)

      restart_one_lem :
          (m : String) (s : Services)
          → restart_one registry known codec io cfg new_cfg m s
            ≡ (if changed m then stop_service m s else s)
      unfolding restart_one changed
      restart_one_lem m s =
          let next = source_of new_cfg m in
          guards (exists m) next.enabled next.reset (should_restart_source (source_of cfg m) next)
            (stop_service m s) s

      runs-restart_one :
          (m n : String) (s : Services)
          → runs n (restart_one registry known codec io cfg new_cfg m s)
            ≡ (if n == m then not (changed n) && runs n s else runs n s)
      runs-restart_one m n s = ap (runs n) (restart_one_lem m s) ∙ (elim (Bool-cases (n == m)) [
        | inl t ↦ ground (arith, runs-stop_service m n s, ap changed (eq_true n m t))
        | inr t ↦ ground (arith, runs-stop_service m n s)
      ])

      start_one_lem :
          (m n : String) (s : Services)
          → runs n (start_one registry known codec io new_cfg m s)
            ≡ (if due m && not (runs m s) then runs n (start_source registry m s) else runs n s)
      unfolding start_one due start_source
      start_one_lem m n s =
          let next = source_of new_cfg m in
          start_guards next.enabled next.reset (runs m s) (can_start registry m) _ s (runs n)

      due-can_start : (m : String) → due m ≡ true → can_start registry m ≡ true
      unfolding due
      due-can_start m d =
          due_last (source_of new_cfg m).enabled (source_of new_cfg m).reset (can_start registry m)
            d

      runs-start_one :
          (m n : String) (s : Services)
          → runs n (start_one registry known codec io new_cfg m s)
            ≡ (if n == m then due n || runs n s else runs n s)
      runs-start_one m n s = start_one_lem m n s ∙ (elim (Bool-cases (n == m)) [
        | inl t ↦ elim (Bool-cases (due m)) [
          | inl d ↦ ground (
            arith,
            runs-start_source registry m n s,
            due-can_start m d,
            ap due (eq_true n m t),
            ap (λ k. runs k s) (eq_true n m t),
          )
          | inr d ↦ ground (arith, ap due (eq_true n m t))
        ]
        | inr t ↦ ground (arith, runs-start_source registry m n s)
      ])

      runs-end_one :
          (m n : String) (s : Services)
          → runs n (end_one registry known codec io new_cfg m s)
            ≡ (if n == m then exists n && ((source_of new_cfg n).enabled && runs n s) else runs n s)
      unfolding end_one
      runs-end_one m n s = elim (Bool-cases (n == m)) [
        | inl t ↦ ground (
          arith,
          runs-stop_service m n s,
          ap exists (eq_true n m t),
          ap (λ k. (source_of new_cfg k).enabled) (eq_true n m t),
        )
        | inr t ↦ ground (arith, runs-stop_service m n s)
      ]

      -- The three loops after the resets.
      abbrev services_phases : Services → Services
      services_phases s1 =
          let s2 = each (restart_one registry known codec io cfg new_cfg) (keys_of s1.running) s1 in
          let s3 =
            each (start_one registry known codec io new_cfg) (keys_of (source_map new_cfg)) s2 in
          each (end_one registry known codec io new_cfg) (keys_of s3.running) s3

      runs-services_phases :
          (n : String) (s1 : Services)
          → runs n (services_phases s1) ≡ (
              exists n
              && ((source_of new_cfg n).enabled && (due n || (not (changed n) && runs n s1))))
      runs-services_phases n s1 =
          let s2 = each (restart_one registry known codec io cfg new_cfg) (keys_of s1.running) s1 in
          let s3 =
            each (start_one registry known codec io new_cfg) (keys_of (source_map new_cfg)) s2 in
          ground (
            arith,
            each_lem (end_one registry known codec io new_cfg) runs
                (λ n b. exists n && ((source_of new_cfg n).enabled && b)) runs-end_one
                (λ n b. ground arith) (keys_of s3.running) n s3,
            each_lem (start_one registry known codec io new_cfg) runs (λ n b. due n || b)
                runs-start_one (λ n b. ground arith) (keys_of (source_map new_cfg)) n s2,
            each_lem (restart_one registry known codec io cfg new_cfg) runs
                (λ n b. not (changed n) && b) runs-restart_one (λ n b. ground arith)
                (keys_of s1.running) n s1,
          )

    loops_lem :
        (e a r c k b : Bool)
        → r ≡ false
        → (e ≡ false → a ≡ false)
        → (e && (a && ((a && (not r && c)) || (not (e && (a && (not r && k))) && b))))
          ≡ (a && (not r && (c || (b && not k))))
    loops_lem true a r c k b h absent = ground arith
    loops_lem false a r c k b h absent = ground (arith, absent refl)

    no_loops_lem : (e a : Bool) (x : Bool) → a ≡ false → (e && (a && x)) ≡ false
    no_loops_lem e a x h = ground arith

    absent-enabled :
        (cfg : Config) (n : String)
        → contains (keys_of (source_map cfg)) n ≡ false
        → (source_of cfg n).enabled ≡ false
    absent-enabled cfg n h = ap SourceConfig.enabled (source_of-absent cfg n h)

    reset_seen-on :
        (n : String) (o : Seen) → o.0.reset ≡ true → reset_seen n o ≡ (zero_source, false)
    unfolding reset_seen
    reset_seen-on n o h = rw h refl

    reset_seen-off : (n : String) (o : Seen) → o.0.reset ≡ false → reset_seen n o ≡ o
    unfolding reset_seen
    reset_seen-off n o h = rw h refl

    settled : Config → Services → Config → String → Bool
    settled cfg s loaded n =
        let sc = source_of loaded n in
        sc.enabled
        && (not sc.reset
            && (can_start registry n
                || (runs n s && not (should_restart_source (source_of cfg n) sc))))

    runs-loops :
        (cfg new_cfg loaded : Config) (s s1 : Services) (n : String)
        → ◌≡◌ {A = Seen}
            (source_of new_cfg n, runs n s1)
            (reset_seen n (source_of loaded n, runs n s))
        → runs n (services_phases cfg new_cfg s1) ≡ settled cfg s loaded n
    unfolding settled due changed
    runs-loops cfg new_cfg loaded s s1 n after =
        runs-services_phases cfg new_cfg n s1 ∙ (elim (Bool-cases (source_of loaded n).reset) [
          | inl t ↦
              let now : ◌≡◌ {A = Seen} (source_of new_cfg n, runs n s1) (zero_source, false) =
                after ∙ reset_seen-on n (source_of loaded n, runs n s) t in
              no_loops_lem (exists cfg new_cfg n) (source_of new_cfg n).enabled _
                (ap (λ o. o.0.enabled) now)
              ∙ ground arith
          | inr t ↦
              let now : ◌≡◌ {A = Seen} (source_of new_cfg n, runs n s1)
                  (source_of loaded n, runs n s) =
                after ∙ reset_seen-off n (source_of loaded n, runs n s) t in
              let next = source_of new_cfg n in
              loops_lem (exists cfg new_cfg n) next.enabled next.reset (can_start registry n)
                (should_restart_source (source_of cfg n) next) (runs n s1)
                (ap (λ o. o.0.reset) now ∙ t) (absent-enabled new_cfg n)
              ∙ ap
                  (λ o.
                    o.0.enabled
                    && (not o.0.reset
                        && (can_start registry n
                            || (o.1 && not (should_restart_source (source_of cfg n) o.0)))))
                  now
        ])

    -- After a tick a source runs exactly if the loaded configuration enables it and does not reset it, and
    -- either it can be started now, or it was running and its auth did not call for a restart.
    pub runs-tick :
        (cfg loaded : Config) (s : Services) (w : World Bytes) (n : String)
        → let sc = source_of loaded n in
          runs n (tick registry known codec io cfg loaded s w).1 ≡ (
            sc.enabled
            && (not sc.reset
                && (can_start registry n
                    || (runs n s && not (should_restart_source (source_of cfg n) sc)))))
    unfolding tick seen settled
    runs-tick cfg loaded s w n =
        let st =
          each (reset_one registry known codec io) (keys_of (source_map loaded)) (loaded, s, w) in
        let after = seen-resets loaded s w n in runs-loops cfg st.0 loaded s st.1 n after
