-- ===== src/Upstream/ToolNames.antt =====
-- internal/upstream/tool_names.go: the aliases under which the tools of a request are sent, and the
-- way back. A name is given by its runes. A `range` over a map is a
-- parameter.
pub mod Fresh
pub mod Entries
pub mod Sound
pub mod Reverse
use grok_go.Base.{
  ℕ, zero, suc, ◌+◌, ◌-◌, ◌/◌, ◌%◌, String, Bool, true, false, Option, none, some, List, [], ◌∷◌,
  ◌++◌, ◌==◌, ◌&&◌, ◌||◌, length, ltb, leb, if◌then◌else◌,
}
use grok_go.Base.Text.{codes, codes_eq}
use grok_go.Gateway.{Operation, messaging}
use grok_go.Gateway.Response.{has_prefix}

abbrev pub Name : Type 0
Name = List ℕ

abbrev pub Aliases : Type 0
Aliases = List (Name × Name)

abbrev pub take : ℕ → Name → Name
take zero name = []
take (suc n) [] = []
take (suc n) (c ∷ name) = c ∷ take n name

abbrev pub drop : ℕ → Name → Name
drop zero name = name
drop (suc n) [] = []
drop (suc n) (c ∷ name) = drop n name

-- truncateRunes; a maximum below zero is zero here, with the same result.
unfoldable pub truncate_runes : Name → ℕ → Name
truncate_runes name maximum = if leb (length name) maximum then name else take maximum name

-- The decimal digits of a number, in front of a text.
unfoldable pub append_decimal : ℕ → ℕ → Name → Name
append_decimal zero n text = text
append_decimal (suc room) n text =
    let digits = (b'0' + n % 10) ∷ text in
    let more = append_decimal room (n / 10) digits in if ltb n 10 then digits else more

-- fmt.Sprintf("_%d", suffix)
unfoldable pub marker : ℕ → Name
unfolding append_decimal
marker suffix = b'_' ∷ append_decimal (suc suffix) suffix []

unfoldable pub marked : Name → ℕ → Name
unfolding marker truncate_runes
marked base suffix = truncate_runes base (64 - length (marker suffix)) ++ marker suffix

abbrev pub is_used : List Name → Name → Bool
is_used [] name = false
is_used (x ∷ used) name = codes_eq x name || is_used used name

-- The loop of uniqueToolAlias, at a suffix and a candidate; the fuel counts its rounds.
unfoldable pub search_alias : ℕ → Name → ℕ → Name → List Name → Option Name
unfolding marked
search_alias zero base suffix candidate used = none
search_alias (suc rounds) base suffix candidate used =
    let later = search_alias rounds base (suc suffix) (marked base suffix) used in
    if is_used used candidate then later else some candidate

-- uniqueToolAlias, with the set of used names that it leaves. Two rounds more than there are used
-- names are enough.
unfoldable pub unique_tool_alias : Name → List Name → Option (Name × List Name)
unfolding search_alias
unique_tool_alias base used = elim (search_alias (suc (suc (length used))) base 1 base used) [
  | none ↦ none
  | some alias ↦ some (alias, alias ∷ used)
]

-- strings.HasPrefix(name, "mcp__"), and the part after the last "__" of the rest.
unfoldable pub after_last_mark : Name → Option Name
after_last_mark [] = none
after_last_mark (c ∷ name) =
    let later = after_last_mark name in
    elim later [
      | some rest ↦ some rest
      | none ↦ if has_prefix (c ∷ name) (codes "__") then some (drop 2 (c ∷ name)) else none
    ]

-- preferredToolAlias
unfoldable pub preferred_tool_alias : Name → Name
unfolding after_last_mark truncate_runes
preferred_tool_alias name =
    if leb (length name) 64
    then name
    else if has_prefix name (codes "mcp__")
    then elim (after_last_mark (drop 5 name)) [
      | some rest ↦ truncate_runes (codes "mcp__" ++ rest) 64
      | none ↦ truncate_runes name 64
    ]
    else truncate_runes name 64

-- A tool as the code reads it: whether it is an object, its type, the name in its function if it
-- has one, its own name, and its tools. A value that is missing or of another kind reads as empty.
mutual
  pub data Tool : Type 0 where
    other : Tool
    tool : String → Option Name → Name → Tools → Tool

  pub data Tools : Type 0 where
    end : Tools
    entry : Tool → Tools → Tools

-- aliases[name] = alias
unfoldable pub set_alias : Name → Name → Aliases → Aliases
set_alias name alias [] = (name, alias) ∷ []
set_alias name alias ((key, old) ∷ aliases) =
    let rest = set_alias name alias aliases in
    if codes_eq key name then (name, alias) ∷ aliases else (key, old) ∷ rest

unfoldable pub get_alias : Name → Aliases → Option Name
get_alias name [] = none
get_alias name ((key, alias) ∷ aliases) =
    if codes_eq key name then some alias else get_alias name aliases

-- The aliases and the used names.
abbrev pub Naming : Type 0
Naming = Aliases × List Name

-- aliases[original] = uniqueToolAlias(alias, used)
unfoldable pub give_alias : Name → Name → Naming → Option Naming
unfolding unique_tool_alias set_alias
give_alias original alias (aliases, used) = elim (unique_tool_alias alias used) [
  | none ↦ none
  | some (unique, more) ↦ some (set_alias original unique aliases, more)
]

-- The loop over the aliases of a namespace.
unfoldable pub give_all : Aliases → Naming → Option Naming
unfolding give_alias
give_all [] s = some s
give_all ((original, alias) ∷ others) s = elim (give_alias original alias s) [
  | none ↦ none
  | some t ↦ give_all others t
]

abbrev is_messages : Operation → Bool
is_messages messaging = true
is_messages _ = false

-- The name by which the loop of buildToolAliases takes a tool; a tool without one is passed over.
unfoldable pub name_of : Operation → String → Option Name → Name → Name
name_of operation kind (some name) own = name
name_of operation kind none own =
    if is_messages operation || kind == "function" || kind == "custom" then own else []

unfoldable pub give_named : Name → Naming → Option Naming
unfolding give_alias preferred_tool_alias
give_named [] s = some s
give_named (c ∷ name) s = give_alias (c ∷ name) (preferred_tool_alias (c ∷ name)) s

abbrev pub in_world : {W : Type 0} → W → Option Naming → Option (Naming × W)
in_world w none = none
in_world w (some s) = some (s, w)

-- The loop of requestToolReverseNames, over the entries in the order of its range.
unfoldable pub reverse_names : Aliases → Aliases → Aliases
unfolding set_alias
reverse_names [] reversed = reversed
reverse_names ((original, alias) ∷ aliases) reversed =
    reverse_names aliases (set_alias alias original reversed)

-- A range over a map, whose order the world decides anew each time.
abbrev pub Range : Type 0 → Type 0
Range W = Aliases → W → Aliases × W

module _ {W : Type 0} (range : Range W) (operation : Operation) where
  unfoldable mutual
    unfolding give_all give_named name_of

    -- The body of the loop of buildToolAliases, on one tool.
    pub build_tool : Tool → Naming → W → Option (Naming × W)
    build_tool other s w = some (s, w)
    build_tool (tool kind function name tools) s w =
        let inner = build_tools tools ([], []) w in
        if kind == "namespace"
        then elim inner [
          | none ↦ none
          | some (built, w1) ↦
              let (others, w2) = range built.0 w1 in in_world w2 (give_all others s)
        ]
        else in_world w (give_named (name_of operation kind function name) s)

    pub build_tools : Tools → Naming → W → Option (Naming × W)
    build_tools end s w = some (s, w)
    build_tools (entry first tools) s w = elim (build_tool first s w) [
      | none ↦ none
      | some (t, w1) ↦ build_tools tools t w1
    ]

  -- buildToolAliases
  unfoldable pub build_tool_aliases : Tools → W → Option (Aliases × W)
  unfolding build_tools
  build_tool_aliases tools w = elim (build_tools tools ([], []) w) [
    | none ↦ none
    | some (built, w1) ↦ some (built.0, w1)
  ]

  -- requestToolReverseNames, from the tools of the body on; it builds the aliases anew.
  unfoldable pub request_tool_reverse_names : Tools → W → Option (Aliases × W)
  unfolding build_tool_aliases reverse_names
  request_tool_reverse_names tools w = elim (build_tool_aliases tools w) [
    | none ↦ none
    | some (aliases, w1) ↦
        let (entries, w2) = range aliases w1 in some (reverse_names entries [], w2)
  ]
