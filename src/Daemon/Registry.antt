-- ===== src/Daemon/Registry.antt =====
-- src/sources/registry/registry.go. The functions of a descriptor are given by what they answer: a nil
-- function is `none`.
use mcpyeahyouknowme.Prelude.{
  String, Bool, true, false, Option, none, some, List, [], ◌∷◌, if◌then◌else◌, ◌==◌, string_eq,
}

-- What the daemon asks of a constructed source: `core_service` says, if it has one, whether it needs auth.
pub record DataSource : Type 0 where
  pub core_service : Option Bool

pub record Descriptor : Type 0 where
  pub name : String
  pub source : Option DataSource
  pub is_enabled : Option Bool
  pub is_authenticated : Option Bool
  pub index_globally : Bool
  pub runs_core : Bool

unfoldable pub find : List Descriptor → String → Option Descriptor
find [] name = none
find (desc ∷ descs) name = if desc.name == name then some desc else find descs name

-- NewSource
unfoldable pub new_source : List Descriptor → String → Option DataSource
unfolding find
new_source registry name = elim (find registry name) [ none ↦ none | some desc ↦ desc.source ]

-- IsAuthenticated
unfoldable pub is_authenticated : List Descriptor → String → Bool
unfolding find
is_authenticated registry name = elim (find registry name) [
  | none ↦ true
  | some desc ↦ elim desc.is_authenticated [ none ↦ true | some b ↦ b ]
]

-- IsAvailable, without its reason
unfoldable pub is_available : List Descriptor → String → Bool
unfolding find
is_available registry name = elim (find registry name) [
  | none ↦ false
  | some desc ↦ elim desc.is_enabled [ none ↦ true | some b ↦ b ]
]
