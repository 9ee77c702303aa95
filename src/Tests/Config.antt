-- ===== src/Tests/Config.antt =====
-- The configuration file on a disk whose encoder lays out texts anew and refuses broken ones.
use mathlib.Core.Path.{subst}
use mcpyeahyouknowme.Prelude.{
  ◌≡◌, refl, sym, ap, String, Bool, true, false, ◌||◌, Option, none, some, List, [], ◌∷◌, arith,
  if◌then◌else◌, ◌==◌, string_eq, eq_true, contains, Bool-cases, inl, inr,
}
use mcpyeahyouknowme.Prelude.Dict.{Dict, lookup, insert}
use mcpyeahyouknowme.Core.Config.{
  Config, SourceConfig, Codec, Disk, SaveOutcome, zero_mcp, zero_source, source_map, source_of,
  normalize_config, load_config, set_source_enabled, update_source_config,
}
use mcpyeahyouknowme.Core.Config.Laws.{
  or_known, lookup-normalize_config, IsAtomic, Alike, Rereads, updated,
  update_source_config-IsAtomic, set_source_enabled-load_config,
}

abbrev stored : Config
stored = record {
  sources = some (("whatsapp", record { enabled = true; reset = true; auth = "{}" }) ∷ []);
  mcp = zero_mcp;
}

abbrev known : List String
known = "whatsapp" ∷ "gsuite" ∷ []

lookup-normalize_config_example :
    lookup "gsuite" (source_map (normalize_config known stored))
    ≡ or_known (contains known "gsuite") (lookup "gsuite" (source_map stored))
lookup-normalize_config_example = lookup-normalize_config known stored "gsuite"

-- The encoder writes an empty object with a space, and refuses a single brace.
abbrev laid_out : String → String
laid_out auth = if auth == "{}" then "{ }" else auth

abbrev value_of : String → String
value_of auth = if auth == "{ }" then "{}" else auth

abbrev written_source : SourceConfig → SourceConfig
written_source sc = record sc { auth = laid_out sc.auth }

written_sources : Dict String SourceConfig → Dict String SourceConfig
written_sources [] = []
written_sources ((name, sc) ∷ d) = (name, written_source sc) ∷ written_sources d

has_broken : Dict String SourceConfig → Bool
has_broken [] = false
has_broken ((name, sc) ∷ d) = sc.auth == "{" || has_broken d

written : Config → Config
written cfg = record cfg { sources = some (written_sources (source_map cfg)) }

abbrev indenting : Codec Config
indenting = record {
  encode = λ cfg. if has_broken (source_map cfg) then none else some (written cfg);
  decode = λ cfg. some cfg;
}

value_of-empty : value_of (laid_out "{}") ≡ value_of "{}"
unfolding string_eq
value_of-empty = refl

value_of-laid_out : (auth : String) → value_of (laid_out auth) ≡ value_of auth
value_of-laid_out auth = elim (Bool-cases (auth == "{}")) [
  | inl t ↦
      subst (λ a. value_of (laid_out a) ≡ value_of a) (sym (eq_true auth "{}" t)) value_of-empty
  | inr f ↦ rw f refl
]

abbrev or_zero : Option SourceConfig → SourceConfig
or_zero o = elim o [ none ↦ zero_source | some sc ↦ sc ]

written_sources-Alike :
    (k : String) (d : Dict String SourceConfig)
    → Alike value_of (or_zero (lookup k (written_sources d))) (or_zero (lookup k d))
unfolding written_sources lookup
written_sources-Alike k [] = (refl, refl, refl)
written_sources-Alike k ((name, sc) ∷ d) = elim (Bool-cases (k == name)) [
  | inl t ↦ rw t (refl, refl, value_of-laid_out sc.auth)
  | inr f ↦ rw f (written_sources-Alike k d)
]

none-ne-some : (cfg : Config) → none ≡ some cfg → ⊥
none-ne-some cfg e = cc

some-inj : (a b : Config) → some a ≡ some b → a ≡ b
some-inj a b e = cc

indenting-Rereads : Rereads value_of indenting
unfolding written
indenting-Rereads cfg bytes e = elim (Bool-cases (has_broken (source_map cfg))) [
  | inl t ↦ absurd (none-ne-some bytes (ground (arith, t, e)))
  | inr f ↦ (
    written cfg,
    ap some (some-inj bytes (written cfg) (ground (arith, f, e))),
    λ k. written_sources-Alike k (source_map cfg),
  )
]

abbrev disk : Disk Config
disk = record { config_file = some stored; temp_file = none }

abbrev good_calls : SaveOutcome Config
good_calls = record { mkdir_ok = true; write_ok = true; written = none; rename_ok = true }

-- A full disk leaves an empty temporary file.
abbrev full_disk : SaveOutcome Config
full_disk = record good_calls {
  write_ok = false;
  written = some (record { sources = none; mcp = zero_mcp });
}

disabled : (set_source_enabled known indenting good_calls "whatsapp" false disk).1 ≡ true
unfolding set_source_enabled load_config normalize_config has_broken lookup insert string_eq
disabled = refl

abbrev name : String
name = "whatsapp"

set_source_enabled-load_config_example :
    Alike value_of
      (source_of
        (load_config known indenting
          (set_source_enabled known indenting good_calls "whatsapp" false disk).0)
        "whatsapp")
      (if name == name
        then record (source_of (load_config known indenting disk) "whatsapp") {
          enabled = false;
          reset = false;
        }
        else source_of (load_config known indenting disk) "whatsapp")
set_source_enabled-load_config_example =
    set_source_enabled-load_config known indenting value_of good_calls "whatsapp" false disk
      "whatsapp" indenting-Rereads disabled

update_source_config-IsAtomic_example :
    IsAtomic indenting
      (updated known indenting "whatsapp" (λ sc. zero_source) disk)
      disk
      (update_source_config known indenting full_disk "whatsapp" (λ sc. zero_source) disk)
update_source_config-IsAtomic_example =
    update_source_config-IsAtomic known indenting full_disk "whatsapp" (λ sc. zero_source) disk
