-- ===== src/Core/Config/Laws.antt =====
-- What the configuration helpers keep and change.
use mathlib.Core.Path.{subst}
use mcpyeahyouknowme.Prelude.{
  ◌≡◌, refl, sym, ◌∙◌, ap, String, Bool, true, false, Option, none, some, Option-cases, ◌⊎◌, inl,
  inr, List, [], ◌∷◌, arith, ◌==◌, contains, if◌then◌else◌, string_eq,
}
use mcpyeahyouknowme.Prelude.Dict.{Dict, lookup, lookup-insert}
use mcpyeahyouknowme.Core.Config.{
  Config, SourceConfig, Codec, Disk, SaveOutcome, write_temp, rename_temp, zero_source, source_map,
  source_of, with_source, add_missing, add_all_missing, normalize_config, load_config,
  parsed_or_empty, save_config, update_source_config, set_source_enabled,
}

-- Looking up a key after the loop: an entry that was there stays, and a known name that was missing
-- has the zero value.
abbrev pub or_known : Bool → Option SourceConfig → Option SourceConfig
or_known known none = if known then some zero_source else none
or_known known (some sc) = some sc

lookup-add_missing :
    (k name : String) (m : Dict String SourceConfig)
    → lookup k (add_missing name m) ≡ or_known (name == k) (lookup k m)
unfolding add_missing
lookup-add_missing k name m = ground (arith, lookup-insert k name zero_source m)

lookup-add_all_missing :
    (k : String) (names : List String) (m : Dict String SourceConfig)
    → lookup k (add_all_missing names m) ≡ or_known (contains names k) (lookup k m)
unfolding add_all_missing
lookup-add_all_missing k [] m = ground arith
lookup-add_all_missing k (name ∷ names) m =
    ground (arith, lookup-add_all_missing k names (add_missing name m), lookup-add_missing k name m)

-- Normalizing changes no entry that is there, adds a disabled entry for every known source that has
-- none, and adds nothing else.
pub lookup-normalize_config :
    (known : List String) (cfg : Config) (k : String)
    → lookup k (source_map (normalize_config known cfg))
      ≡ or_known (contains known k) (lookup k (source_map cfg))
unfolding normalize_config
lookup-normalize_config known cfg k = lookup-add_all_missing k known (source_map cfg)

-- A missing source reads as the zero value, so normalizing changes no reading.
source_of-normalize_config :
    (known : List String) (cfg : Config) (k : String)
    → source_of (normalize_config known cfg) k ≡ source_of cfg k
source_of-normalize_config known cfg k =
    ap (λ o. elim o [ none ↦ zero_source | some sc ↦ sc ]) (lookup-normalize_config known cfg k)
    ∙ reads (contains known k) (lookup k (source_map cfg))
  where
    reads :
        (b : Bool) (o : Option SourceConfig)
        → elim (or_known b o) [ none ↦ zero_source | some sc ↦ sc ]
          ≡ elim o [ none ↦ zero_source | some sc ↦ sc ]
    reads b o = ground arith

true-ne-false : true ≡ false → ⊥
true-ne-false e = cc

source_of-with_source :
    (cfg : Config) (name : String) (sc : SourceConfig) (k : String)
    → source_of (with_source cfg name sc) k ≡ (if k == name then sc else source_of cfg k)
source_of-with_source cfg name sc k = ground (arith, lookup-insert k name sc (source_map cfg))

-- What a save that reports success has done: config.json is the encoded configuration. One that reports a
-- failure has left config.json as it was.
abbrev pub IsAtomic :
    {Bytes : Type 0} → Codec Bytes → Config → Disk Bytes → Disk Bytes × Bool → Type 0
IsAtomic {Bytes = Bytes} codec cfg disk (disk', reported) =
    ((reported ≡ true)
      × (bytes : Bytes) × (codec.encode cfg ≡ some bytes)
      × (disk'.config_file ≡ some bytes))
    ⊎ ((reported ≡ false) × (disk'.config_file ≡ disk.config_file))

-- The settings of a source as a program sees them: the flags, and the JSON value of `auth`.
abbrev pub Alike : {V : Type 0} → (String → V) → SourceConfig → SourceConfig → Type 0
Alike value_of a b =
    (a.enabled ≡ b.enabled) × (a.reset ≡ b.reset) × (value_of a.auth ≡ value_of b.auth)

-- json.Unmarshal reads what json.MarshalIndent has written, with each `auth` perhaps laid out and escaped
-- differently.
abbrev pub Rereads : {V Bytes : Type 0} → (String → V) → Codec Bytes → Type 0
Rereads {Bytes = Bytes} value_of codec =
    (cfg : Config) (bytes : Bytes)
    → codec.encode cfg ≡ some bytes
    → (cfg' : Config) × (codec.decode bytes ≡ some cfg')
      × ((k : String) → Alike value_of (source_of cfg' k) (source_of cfg k))

Alike-via :
    {V : Type 0} (value_of : String → V) (a a' b b' : SourceConfig)
    → a' ≡ a
    → b ≡ b'
    → Alike value_of a b
    → Alike value_of a' b'
Alike-via value_of a a' b b' e f (h, i, j) = (
  ap SourceConfig.enabled e ∙ h ∙ ap SourceConfig.enabled f,
  ap SourceConfig.reset e ∙ i ∙ ap SourceConfig.reset f,
  ap (λ sc. value_of (SourceConfig.auth sc)) e ∙ j ∙ ap (λ sc. value_of (SourceConfig.auth sc)) f,
)

module _ {Bytes : Type 0} (known : List String) (codec : Codec Bytes) where
  -- The four ways in which a save ends whose configuration can be encoded.
  ending :
      (mkdir_ok write_ok rename_ok : Bool) → Option Bytes → Bytes → Disk Bytes → Disk Bytes × Bool
  ending false w r written bytes disk = (disk, false)
  ending true false r written bytes disk = (record disk { temp_file = written }, false)
  ending true true false written bytes disk = (record disk { temp_file = some bytes }, false)
  ending true true true written bytes disk =
      (record { config_file = some bytes; temp_file = none }, true)

  ending-IsAtomic :
      (m w r : Bool) (written : Option Bytes) (cfg : Config) (bytes : Bytes) (disk : Disk Bytes)
      → codec.encode cfg ≡ some bytes
      → IsAtomic codec cfg disk (ending m w r written bytes disk)
  unfolding ending
  ending-IsAtomic false w r written cfg bytes disk e = inr (refl, refl)
  ending-IsAtomic true false r written cfg bytes disk e = inr (refl, refl)
  ending-IsAtomic true true false written cfg bytes disk e = inr (refl, refl)
  ending-IsAtomic true true true written cfg bytes disk e = inl (refl, bytes, e, refl)

  save_config-none :
      (io : SaveOutcome Bytes) (cfg : Config) (disk : Disk Bytes)
      → codec.encode (normalize_config known cfg) ≡ none
      → save_config known codec io cfg disk ≡ (disk, false)
  unfolding save_config
  save_config-none io cfg disk e = rw (save_config, e) refl

  save_config-some :
      (io : SaveOutcome Bytes) (cfg : Config) (disk : Disk Bytes) (bytes : Bytes)
      → codec.encode (normalize_config known cfg) ≡ some bytes
      → save_config known codec io cfg disk
        ≡ ending io.mkdir_ok io.write_ok io.rename_ok io.written bytes disk
  unfolding save_config write_temp rename_temp ending
  save_config-some io cfg disk bytes e = rw (save_config, e) (ground arith)

  save_config-IsAtomic :
      (io : SaveOutcome Bytes) (cfg : Config) (disk : Disk Bytes)
      → IsAtomic codec (normalize_config known cfg) disk (save_config known codec io cfg disk)
  save_config-IsAtomic io cfg disk =
      let saved = normalize_config known cfg in
      elim (Option-cases (codec.encode saved)) [
        | inl e ↦
            subst (IsAtomic codec saved disk) (sym (save_config-none io cfg disk e))
              (inr (refl, refl))
        | inr (bytes, e) ↦
            subst (IsAtomic codec saved disk) (sym (save_config-some io cfg disk bytes e))
              (ending-IsAtomic io.mkdir_ok io.write_ok io.rename_ok io.written saved bytes disk e)
      ]

  -- The new settings of one source, in the configuration that is saved.
  abbrev pub updated : String → (SourceConfig → SourceConfig) → Disk Bytes → Config
  updated name update disk =
      let cfg = load_config known codec disk in
      normalize_config known (with_source cfg name (update (source_of cfg name)))

  -- Whatever the encoding and the system calls answer, and whatever a failing write leaves in the temporary
  -- file: an update either reports success, and config.json is the encoded configuration with the source
  -- updated, or it reports a failure, and config.json is as it was.
  pub update_source_config-IsAtomic :
      (io : SaveOutcome Bytes) (name : String) (update : SourceConfig → SourceConfig)
      (disk : Disk Bytes)
      → IsAtomic codec
          (updated name update disk)
          disk
          (update_source_config known codec io name update disk)
  unfolding update_source_config
  update_source_config-IsAtomic io name update disk =
      let cfg = load_config known codec disk in
      save_config-IsAtomic io (with_source cfg name (update (source_of cfg name))) disk

  -- A file that holds an encoded configuration is read as this configuration.
  load_config-Alike :
      {V : Type 0} (value_of : String → V) (cfg : Config) (disk : Disk Bytes) (bytes : Bytes)
      (k : String)
      → Rereads value_of codec
      → codec.encode cfg ≡ some bytes
      → disk.config_file ≡ some bytes
      → Alike value_of (source_of (load_config known codec disk) k) (source_of cfg k)
  unfolding load_config parsed_or_empty
  load_config-Alike value_of cfg disk bytes k back e f =
      let (cfg', d, alike) = back cfg bytes e in
      Alike-via value_of (source_of cfg' k) (source_of (load_config known codec disk) k)
        (source_of cfg k) (source_of cfg k) (rw (f, d) (source_of-normalize_config known cfg' k))
        refl (alike k)

  saved-Alike :
      {V : Type 0} (value_of : String → V) (cfg : Config) (disk : Disk Bytes)
      (out : Disk Bytes × Bool) (k : String)
      → Rereads value_of codec
      → IsAtomic codec cfg disk out
      → out.1 ≡ true
      → Alike value_of (source_of (load_config known codec out.0) k) (source_of cfg k)
  saved-Alike value_of cfg disk out k back (inl (t, bytes, e, f)) ok =
      load_config-Alike value_of cfg out.0 bytes k back e f
  saved-Alike value_of cfg disk out k back (inr (t, e)) ok = absurd (true-ne-false (sym ok ∙ t))

  pub set_source_enabled-load_config :
      {V : Type 0} (value_of : String → V) (io : SaveOutcome Bytes) (name : String) (enabled : Bool)
      (disk : Disk Bytes) (k : String)
      → Rereads value_of codec
      → (set_source_enabled known codec io name enabled disk).1 ≡ true
      → Alike value_of
          (source_of
            (load_config known codec (set_source_enabled known codec io name enabled disk).0)
            k)
          (if k == name
            then record (source_of (load_config known codec disk) name) {
              enabled = enabled;
              reset = false;
            }
            else source_of (load_config known codec disk) k)
  unfolding set_source_enabled
  set_source_enabled-load_config value_of io name enabled disk k back ok =
      let cfg = load_config known codec disk in
      let change : SourceConfig → SourceConfig =
        λ sc. record sc { enabled = enabled; reset = false } in
      let cfg' = with_source cfg name (change (source_of cfg name)) in
      let out = update_source_config known codec io name change disk in
      let read = source_of (load_config known codec out.0) k in
      Alike-via value_of read read (source_of (normalize_config known cfg') k)
        (if k == name then change (source_of cfg name) else source_of cfg k) refl
        (source_of-normalize_config known cfg' k
          ∙ source_of-with_source cfg name (change (source_of cfg name)) k)
        (saved-Alike value_of (normalize_config known cfg') disk out k back
          (update_source_config-IsAtomic io name change disk) ok)
