-- ===== src/Core/SecureAdder/Laws.antt =====
-- What reaches the server, and how often a mutating tool can run.
use mcpyeahyouknowme.Prelude.{
  ◌≡◌, refl, ◌∙◌, ap, sym, Bool, true, false, not, ◌&&◌, ◌||◌, Option, none, some, List, [], ◌∷◌,
  ◌++◌, arith, if◌then◌else◌, contains, string_eq,
}
use mathlib.Core.List.{append_assoc, append-nil}
use mcpyeahyouknowme.Core.Config.{McpConfig}
use mcpyeahyouknowme.Core.SecureAdder.{
  Tool, tool_is_read_only, SecureToolAdder, new_secure_tool_adder, add_tool, add_tools,
}

-- The tools that the configuration lets through.
abbrev pub permitted : McpConfig → Tool → Bool
permitted cfg tool =
    not (contains cfg.disabled_tools tool.name) && (not cfg.read_only || tool_is_read_only tool)

module _ {ℓ} {H : Type ℓ} where
  abbrev pub offered : McpConfig → List (Tool × Option H) → List (Tool × H)
  offered cfg [] = []
  offered cfg ((tool, none) ∷ ts) = offered cfg ts
  offered cfg ((tool, some handler) ∷ ts) =
      let rest = offered cfg ts in if permitted cfg tool then (tool, handler) ∷ rest else rest

  inner-add_tool :
      (a : SecureToolAdder H) (cfg : McpConfig) (tool : Tool) (handler : H)
      → a.cfg ≡ cfg
      → a.disabled ≡ cfg.disabled_tools
      → (add_tool a tool (some handler)).inner
        ≡ a.inner ++ (if permitted cfg tool then (tool, handler) ∷ [] else [])
  unfolding add_tool
  inner-add_tool a cfg tool handler ec ed =
      ground (arith, append-nil a.inner, ap McpConfig.read_only ec)

  cfg-add_tool :
      (a : SecureToolAdder H) (tool : Tool) (handler : Option H)
      → ((add_tool a tool handler).cfg ≡ a.cfg) × ((add_tool a tool handler).disabled ≡ a.disabled)
  unfolding add_tool
  cfg-add_tool a tool handler = ground arith

  inner-add_tools_onto :
      (a : SecureToolAdder H) (cfg : McpConfig) (ts : List (Tool × Option H))
      → a.cfg ≡ cfg
      → a.disabled ≡ cfg.disabled_tools
      → (add_tools a ts).inner ≡ a.inner ++ offered cfg ts
  unfolding add_tools
  inner-add_tools_onto a cfg [] ec ed = sym (append-nil a.inner)
  inner-add_tools_onto a cfg ((tool, none) ∷ ts) ec ed = inner-add_tools_onto a cfg ts ec ed
  inner-add_tools_onto a cfg ((tool, some handler) ∷ ts) ec ed =
      let same = cfg-add_tool a tool (some handler) in
      inner-add_tools_onto (add_tool a tool (some handler)) cfg ts (same.0 ∙ ec) (same.1 ∙ ed)
      ∙ ap (λ l. l ++ offered cfg ts) (inner-add_tool a cfg tool handler ec ed)
      ∙ append_assoc a.inner _ (offered cfg ts)
      ∙ ap (λ l. a.inner ++ l) (one_more (permitted cfg tool))
    where
      one_more :
          (b : Bool)
          → (if b then (tool, handler) ∷ [] else []) ++ offered cfg ts
            ≡ (if b then (tool, handler) ∷ offered cfg ts else offered cfg ts)
      one_more true = refl
      one_more false = refl

  -- The tools that reach the server are, in the order of registration, exactly those that have a
  -- handler, are not disabled, and in read-only mode carry a true read-only hint.
  pub inner-add_tools :
      (cfg : McpConfig) (ts : List (Tool × Option H))
      → (add_tools (new_secure_tool_adder cfg) ts).inner ≡ offered cfg ts
  unfolding new_secure_tool_adder
  inner-add_tools cfg ts = inner-add_tools_onto (new_secure_tool_adder cfg) cfg ts refl refl
