-- ===== src/Tools/Registry/Lookup.antt =====
-- What `register` accepts, and that an accepted tool is found again under the name that the LLM sees.
use pyclaw.Prelude.{
  Text, ◌≡◌, ◌≢◌, refl, ap, sym, ◌∙◌, true, false, none, some, [], ◌∷◌, ◌++◌, ok, arith, ◌==◌,
  Bool-cases, text_key, inl, inr, ◌⊎◌, if◌then◌else◌, All, All-append, text_eq, text_eq_iff,
}
use pyclaw.Prelude.Dict
use pyclaw.Tools.Types.{Tool}
use pyclaw.Tools.Names.{has_dunder, replace_dunder, colon_count, server_part, llm_name}
use pyclaw.Tools.Names.RoundTrip.{
  ends_in_underscore, has_dunder-llm_name, replace_dunder-llm_name, colon_count-llm_name,
  llm_name-qualified, replace_dunder-underscore,
}
use pyclaw.Tools.Registry.{
  Registry, register, get, get_named, is_mcp_imported, is_valid_class, contains,
}

-- What the checks of `register` leave of a name.
pub record IsWellNamed (tool : Tool) : Type 0 where
  pub plain_name :
      is_mcp_imported tool ≡ false → (has_dunder tool.name ≡ false) × (colon_count tool.name ≡ 0)
  pub qualified_name :
      is_mcp_imported tool ≡ true
      → (colon_count tool.name ≡ 1) × (has_dunder (server_part tool.name) ≡ false)

-- The invariant of a registry: a tool stands under its own name, of the form for its kind, and has
-- one of the three classes.
abbrev pub IsEntry : Text × Tool → Type 0
IsEntry e = (e.0 ≡ e.1.name) × IsWellNamed e.1 × (is_valid_class e.1.tool_class ≡ true)

abbrev pub IsRegistry : Registry → Type 0
IsRegistry = All IsEntry

-- What an accepted registration guarantees of the tool, and what it does to the registry.
pub record Accepted (tools : Registry) (tool : Tool) (after : Registry) : Type 0 where
  pub fresh : Dict.has tools tool.name ≡ false
  pub class_valid : is_valid_class tool.tool_class ≡ true
  pub well_named : IsWellNamed tool
  pub stored : after ≡ Dict.put tools tool.name tool

pub register-Accepted :
    (tools : Registry) (tool : Tool) {after : Registry}
    → register tools tool ≡ ok after
    → Accepted tools tool after
unfolding register
register-Accepted tools tool h = ground arith

pub register-IsRegistry :
    (tools : Registry) (tool : Tool) {after : Registry}
    → IsRegistry tools
    → register tools tool ≡ ok after
    → IsRegistry after
register-IsRegistry tools tool inv h =
    let a = register-Accepted tools tool h in
    rw (a.stored, Dict.put-eq-append tools tool.name tool a.fresh)
      (All-append IsEntry tools ((tool.name, tool) ∷ []) inv
        ((refl, a.well_named, a.class_valid), tt))

-- No tool stands under a name of the form that `llm_name` gives to MCP tools.
get-llm_form :
    (tools : Registry) (name : Text)
    → IsRegistry tools
    → has_dunder name ≡ true
    → colon_count name ≡ 0
    → Dict.get tools name ≡ none
unfolding Dict.get
get-llm_form [] name inv d c = refl
get-llm_form ((k, tool) ∷ tools) name inv d c = elim (Bool-cases (text_eq k name)) [
  | inl e ↦
      absurd (clash ((sym inv.0.0) ∙ (text_eq_iff k name).0 e) (Bool-cases (is_mcp_imported tool)))
  | inr e ↦ rw e (get-llm_form tools name inv.1 d c)
]
  where
    clash : tool.name ≡ name → (is_mcp_imported tool ≡ true) ⊎ (is_mcp_imported tool ≡ false) → ⊥
    clash e (inl mcp) = let q = inv.0.1.qualified_name mcp in ground (arith, ap colon_count e)
    clash e (inr plain) = let q = inv.0.1.plain_name plain in ground (arith, ap has_dunder e)

-- A name with one colon is its server part, the colon, and a rest without one.
abbrev tool_part : Text → Text
tool_part [] = []
tool_part (c ∷ s) = if c == b':' then s else tool_part s

split_at_colon :
    (name : Text)
    → colon_count name ≡ 1
    → (server_part name ++ b':' ∷ tool_part name ≡ name)
      × (colon_count (server_part name) ≡ 0)
      × (colon_count (tool_part name) ≡ 0)
unfolding colon_count server_part
split_at_colon [] h = absurd (omega arith)
split_at_colon (c ∷ s) h = ground (arith, split_at_colon s)

pub has_dunder-llm : (name : Text) → colon_count name ≡ 1 → has_dunder (llm_name name) ≡ true
has_dunder-llm name h =
    let (e, s0, t0) = split_at_colon name h in
    rw e at (has_dunder-llm_name (server_part name) (tool_part name) s0 t0)

replace-llm :
    (name : Text)
    → colon_count name ≡ 1
    → has_dunder (server_part name) ≡ false
    → ends_in_underscore (server_part name) ≡ false
    → replace_dunder (llm_name name) ≡ name
replace-llm name h d u =
    let (e, s0, t0) = split_at_colon name h in
    rw e at (replace_dunder-llm_name (server_part name) (tool_part name) s0 t0 d u)

get-eq-get_named :
    (tools : Registry) (name : Text)
    → has_dunder name ≡ true
    → get tools name ≡ get_named tools name
unfolding get has_dunder
get-eq-get_named tools [] h = cc
get-eq-get_named tools (c ∷ s) h = refl

-- Once `register` has accepted a tool of an MCP server whose name does not end in an underscore,
-- the name that `list_for_llm` shows for it, with the colon rewritten, leads `get` to that tool;
-- the registry before must satisfy the invariant.
pub get-register-llm_name :
    (tools : Registry) (tool : Tool) {after : Registry}
    → IsRegistry tools
    → is_mcp_imported tool ≡ true
    → ends_in_underscore (server_part tool.name) ≡ false
    → register tools tool ≡ ok after
    → get after (llm_name tool.name) ≡ some tool
unfolding get_named
get-register-llm_name tools tool {after} inv mcp u h =
    let a = register-Accepted tools tool h in
    let (one, plain) = a.well_named.qualified_name mcp in
    let d = has_dunder-llm tool.name one in
    let inv' = register-IsRegistry tools tool inv h in
    rw (get-eq-get_named after (llm_name tool.name) d) (
      ground (
        arith,
        d,
        get-llm_form after (llm_name tool.name) inv' d (colon_count-llm_name tool.name),
        ap (Dict.get after) (replace-llm tool.name one plain u),
        ap (λ (r : Registry). Dict.get r tool.name) a.stored,
        Dict.get-put_self tools tool.name tool,
      ))

-- The other way round: these conditions are all that `register` asks for.
pub register-accepts :
    (tools : Registry) (tool : Tool)
    → Dict.has tools tool.name ≡ false
    → is_valid_class tool.tool_class ≡ true
    → IsWellNamed tool
    → register tools tool ≡ ok (Dict.put tools tool.name tool)
unfolding register
register-accepts tools tool fresh valid named =
    ground (arith, named.plain_name, named.qualified_name)

-- In a registry that satisfies the invariant, a tool is found only under its own name.
pub get-IsRegistry :
    (tools : Registry) (k : Text) {tool : Tool}
    → IsRegistry tools
    → Dict.get tools k ≡ some tool
    → k ≡ tool.name
unfolding Dict.get
get-IsRegistry [] k inv h = cc
get-IsRegistry ((j, t) ∷ tools) k {tool} inv h = elim (Bool-cases (text_eq j k)) [
  | inl e ↦
      let same : t ≡ tool = ground arith in
      (sym ((text_eq_iff j k).0 e)) ∙ inv.0.0 ∙ ap (λ (t : Tool). t.name) same
  | inr e ↦ get-IsRegistry tools k inv.1 (rw e at h)
]

colon-ne-underscore : (s u v : Text) → s ++ b':' ∷ u ≢ (s ++ b'_' ∷ []) ++ v
colon-ne-underscore [] u v e = ground arith
colon-ne-underscore (c ∷ s) u v e = colon-ne-underscore s u v (ground arith)

-- If the server's name ends in an underscore, the name that the LLM sees does not lead back to the
-- tool, whatever else is registered: `get` looks under another name.
pub get-ne-underscore_server :
    (tools : Registry) (tool : Tool) (s t : Text)
    → IsRegistry tools
    → tool.name ≡ (s ++ b'_' ∷ []) ++ b':' ∷ t
    → has_dunder (s ++ b'_' ∷ []) ≡ false
    → colon_count (s ++ b'_' ∷ []) ≡ 0
    → colon_count t ≡ 0
    → get tools (llm_name tool.name) ≢ some tool
unfolding get_named
get-ne-underscore_server tools tool s t inv e d cs ct found =
    let llm = llm_name-qualified (s ++ b'_' ∷ []) t cs ct in
    let dunder : has_dunder (llm_name tool.name) ≡ true =
      rw e (has_dunder-llm_name (s ++ b'_' ∷ []) t cs ct) in
    let back : replace_dunder (llm_name tool.name) ≡ s ++ b':' ∷ b'_' ∷ t =
      rw (e, llm) (replace_dunder-underscore s t d) in
    let named : Dict.get tools (s ++ b':' ∷ b'_' ∷ t) ≡ some tool = ground (
      arith,
      found,
      dunder,
      get-eq-get_named tools (llm_name tool.name) dunder,
      get-llm_form tools (llm_name tool.name) inv dunder (colon_count-llm_name tool.name),
      ap (Dict.get tools) back,
    ) in
    colon-ne-underscore s (b'_' ∷ t) (b':' ∷ t)
      (get-IsRegistry tools (s ++ b':' ∷ b'_' ∷ t) inv named ∙ e)

-- `in registry` does not rewrite the name: it misses each tool of an MCP server under the name that
-- the LLM sees.
pub contains-llm_name :
    (tools : Registry) (name : Text)
    → IsRegistry tools
    → colon_count name ≡ 1
    → contains tools (llm_name name) ≡ false
unfolding contains
contains-llm_name tools name inv one = elim (Bool-cases (Dict.has tools (llm_name name))) [
  | inl e ↦
      let (t, q) = Dict.has-get-some tools (llm_name name) e in
      absurd (
        ground (
          arith,
          q,
          get-llm_form tools (llm_name name) inv (has_dunder-llm name one)
              (colon_count-llm_name name),
        ))
  | inr e ↦ e
]
