-- ===== src/Tests/Naming.antt =====
-- The theorem on the aliases of tools, at a request with two tools of one long name and a
-- namespace.
use grok_go.Base.{
  inr, eqb, ◌%◌, ◌+◌, if◌then◌else◌, Option, ℕ, zero, suc, ◌≡◌, refl, none, some, [], ◌∷◌,
}
use grok_go.Base.Text.{codes}
use grok_go.Gateway.{responding}
use grok_go.Upstream.ToolNames.{
  Range, request_tool_reverse_names, Name, Aliases, Tool, Tools, build_tool_aliases, get_alias,
}
use grok_go.Upstream.ToolNames.Reverse.{build_tool_aliases_reversed}

abbrev repeated : ℕ → Name → Name
repeated zero name = name
repeated (suc n) name = b'a' ∷ repeated n name

-- The two names differ beyond their 64th rune.
abbrev first_name : Name
first_name = repeated 64 (codes "b")

abbrev second_name : Name
second_name = repeated 64 (codes "c")

abbrev function_named : Name → Tool
function_named name = Tool.tool "function" none name Tools.end

abbrev request_tools : Tools
request_tools = Tools.entry (function_named first_name) (
    Tools.entry
      (Tool.tool "namespace" none [] (Tools.entry (function_named (codes "find")) Tools.end))
      (Tools.entry (function_named second_name) Tools.end))

abbrev two_names : Tools
two_names =
    Tools.entry (function_named first_name) (Tools.entry (function_named second_name) Tools.end)

-- The world is the number of ranges so far; every other one is backwards.
abbrev turned : Aliases → Aliases → Aliases
turned [] back = back
turned (e ∷ entries) back = turned entries (e ∷ back)

abbrev in_turns : Range ℕ
in_turns entries w = (if eqb (w % 2) 0 then entries else turned entries [], w + 1)

abbrev as_listed : Range ℕ
as_listed entries w = (entries, w)

second_alias :
    build_tool_aliases as_listed responding request_tools 0
    ≡ some (
      (first_name, repeated 64 [])
          ∷ (codes "find", codes "find")
          ∷ (second_name, repeated 62 (codes "_1"))
          ∷ [],
      0,
    )
unfolding build_tool_aliases
second_alias = refl

-- A tool with the alias of the two, and a namespace that holds both.
abbrev crowded : Tools
crowded = Tools.entry (function_named (repeated 64 [])) (
    Tools.entry
      (Tool.tool "namespace" none [] (
        Tools.entry (function_named first_name)
          (Tools.entry (function_named second_name) Tools.end)))
      Tools.end)

abbrev alias_from : ℕ → Name → Option Name
alias_from w name = elim (build_tool_aliases in_turns responding crowded w) [
  | none ↦ none
  | some (aliases, w') ↦ get_alias name aliases
]

-- With namespaces two runs may give one alias to two names.
swapped :
    (alias_from 0 first_name ≡ some (repeated 62 (codes "_1")))
    × (alias_from 1 second_name ≡ some (repeated 62 (codes "_1")))
unfolding build_tool_aliases get_alias
swapped = (refl, refl)

build_tool_aliases_reversed_example :
    (sent : Aliases × ℕ) × (build_tool_aliases as_listed responding two_names 0 ≡ some sent)
    × (r : Aliases × ℕ) × (request_tool_reverse_names as_listed responding two_names 7 ≡ some r)
    × ((name alias : Name) → get_alias name sent.0 ≡ some alias → get_alias alias r.0 ≡ some name)
build_tool_aliases_reversed_example =
    build_tool_aliases_reversed as_listed (λ entries name alias w. ((λ h. h), (λ h. h))) responding
      two_names 0 7 (inr (refl, (refl, tt)))
