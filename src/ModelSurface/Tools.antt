-- ===== src/ModelSurface/Tools.antt =====
-- internal/orchestrator/model_surface.go: the tools of a request in their canonical order.
use Prim.Native.String.{compare}
use text.Mathlib.Text.{is_lt}
use alt_tui.Prelude.{String, Option, none, some, Bool, true, false, List, [], ◌∷◌, if◌then◌else◌}

-- of schema.ToolInfo, a tool's name and all else
pub record ToolInfo : Type 0 where
  pub name : String
  pub others : String

-- canonicalToolInfos: the order by name, with the missing ones first
abbrev pub tool_before : Option ToolInfo → Option ToolInfo → Bool
tool_before none none = false
tool_before none (some _) = true
tool_before (some _) none = false
tool_before (some a) (some b) = is_lt (compare a.name b.name)

insert_tool : Option ToolInfo → List (Option ToolInfo) → List (Option ToolInfo)
insert_tool x [] = x ∷ []
insert_tool x (y ∷ rest) =
    let later = insert_tool x rest in if tool_before y x then y ∷ later else x ∷ y ∷ rest

unfoldable pub canonical_tools : List (Option ToolInfo) → List (Option ToolInfo)
unfolding insert_tool
canonical_tools [] = []
canonical_tools (x ∷ rest) = insert_tool x (canonical_tools rest)

abbrev names_of : List (Option ToolInfo) → List String
names_of [] = []
names_of (none ∷ rest) = names_of rest
names_of (some x ∷ rest) = x.name ∷ names_of rest

-- toolInfoNames
abbrev pub tool_names : List (Option ToolInfo) → List String
tool_names tools = names_of (canonical_tools tools)
