-- ===== src/Upstream/ToolNames/Reverse.antt =====
-- Every name of a tool is got back from its alias.
use grok_go.Base.{◌≡◌, refl, ap, ◌∙◌, subst, none, some, [], ◌∷◌, Bool-cases, inl, inr, ◌⊎◌}
use grok_go.Base.Text.{codes_eq}
use grok_go.Base.Text.Match.{codes_eq→eq}
use grok_go.Gateway.{Operation}
use grok_go.Upstream.ToolNames.{
  Range, request_tool_reverse_names, Name, Aliases, Naming, Tools, set_alias, get_alias,
  build_tools, build_tool_aliases, reverse_names,
}
use grok_go.Upstream.ToolNames.Entries.{
  In, get_alias-In, get_alias-set_alias_self, get_alias-set_alias_other,
}
use grok_go.Upstream.ToolNames.Sound.{IsSound, empty-IsSound, IsFlat, build_tools-Built, flat-Built}

module _ (name alias : Name) where
  -- No other name has the alias among these entries.
  abbrev IsOnly : Aliases → Type 0
  IsOnly aliases = (other : Name) → In other alias aliases → other ≡ name

  kept_lem :
      (aliases reversed : Aliases)
      → IsOnly aliases
      → get_alias alias reversed ≡ some name
      → get_alias alias (reverse_names aliases reversed) ≡ some name
  unfolding reverse_names
  kept_lem [] reversed only h = h
  kept_lem ((original, value) ∷ aliases) reversed only h =
      kept_lem aliases (set_alias value original reversed) (λ other k. only other (inr k))
        (elim (Bool-cases (codes_eq value alias)) [
          | inl e ↦
              let same = codes_eq→eq value alias e in
              let back : original ≡ name = only original (inl (refl, same)) in
              rw (same, back) (get_alias-set_alias_self alias name reversed)
          | inr e ↦ get_alias-set_alias_other value original alias reversed e ∙ h
        ])

  reverse_lem :
      (aliases reversed : Aliases)
      → IsOnly aliases
      → In name alias aliases
      → get_alias alias (reverse_names aliases reversed) ≡ some name
  unfolding reverse_names
  reverse_lem [] reversed only h = elim h [ ]
  reverse_lem ((original, value) ∷ aliases) reversed only (inl (e, f)) =
      kept_lem aliases _ (λ other k. only other (inr k))
        (rw (e, f) (get_alias-set_alias_self alias name reversed))
  reverse_lem ((original, value) ∷ aliases) reversed only (inr h) =
      reverse_lem aliases _ (λ other k. only other (inr k)) h

-- A `range` meets the entries of a map, and nothing else, in whatever order.
abbrev pub IsRange : {W : Type 0} → Range W → Type 0
IsRange {W} range =
    (aliases : Aliases) (name alias : Name) (w : W)
    → (In name alias (range aliases w).0 → In name alias aliases)
      × (In name alias aliases → In name alias (range aliases w).0)

module _ {W : Type 0} (range : Range W) (whole : IsRange range) (operation : Operation)
    (tools : Tools) where
  built_lem :
      (w w1 : W) (t : Naming)
      → build_tools range operation tools ([], []) w ≡ some (t, w1)
      → build_tool_aliases range operation tools w ≡ some (t.0, w1)
  unfolding build_tool_aliases
  built_lem w w1 t built = ap (λ o. elim o [ none ↦ none | some (b, v) ↦ some (b.0, v) ]) built

  -- The names that the reverse map of a run gives back are those of the run's own aliases.
  reversed_lem :
      (w : W) (t : Naming × W)
      → build_tools range operation tools ([], []) w ≡ some t
      → IsSound t.0
      → (r : Aliases × W) × (request_tool_reverse_names range operation tools w ≡ some r)
        × ((name alias : Name)
            → get_alias name t.0.0 ≡ some alias
            → get_alias alias r.0 ≡ some name)
  unfolding request_tool_reverse_names
  reversed_lem w (t, w1) built sound = (
    (reverse_names (range t.0 w1).0 [], (range t.0 w1).1),
    ap
        (λ o. elim o [
          | none ↦ none
          | some (aliases, u) ↦ some (reverse_names (range aliases u).0 [], (range aliases u).1)
        ])
        (built_lem w w1 t built),
    (λ name alias h.
        let here = get_alias-In name alias t.0 h in
        reverse_lem name alias (range t.0 w1).0 []
          (λ other k. sound.apart other name alias ((whole t.0 other alias w1).0 k) here)
          ((whole t.0 name alias w1).1 here)),
  )

  abbrev Answers : W → W → Type 0
  Answers w w' =
      (sent : Aliases × W) × (build_tool_aliases range operation tools w ≡ some sent)
      × (r : Aliases × W) × (request_tool_reverse_names range operation tools w' ≡ some r)
      × ((name alias : Name) → get_alias name sent.0 ≡ some alias → get_alias alias r.0 ≡ some name)

  both_lem :
      (w w' : W) (t : Naming)
      → (u : W) × (build_tools range operation tools ([], []) w ≡ some (t, u))
      → (u : W) × (build_tools range operation tools ([], []) w' ≡ some (t, u))
      → IsSound t
      → Answers w w'
  both_lem w w' t (u, built) (u', again) sound =
      let (r, ended, names) = reversed_lem w' (t, u') again sound in
      ((t.0, u), built_lem w u t built, r, ended, names)

  -- In whatever order each range meets the entries of a map: buildToolAliases, run for the payload,
  -- and requestToolReverseNames, which builds the aliases anew, both end, and the latter gives for
  -- each alias of the former the name that has it, where there are no namespaces among the tools
  -- or the two runs start in one state of the world.
  pub build_tool_aliases_reversed :
      (w w' : W)
      → (w ≡ w') ⊎ IsFlat tools
      → (sent : Aliases × W) × (build_tool_aliases range operation tools w ≡ some sent)
        × (r : Aliases × W) × (request_tool_reverse_names range operation tools w' ≡ some r)
        × ((name alias : Name)
            → get_alias name sent.0 ≡ some alias
            → get_alias alias r.0 ≡ some name)
  build_tool_aliases_reversed w w' (inl same) =
      let (b, built, sound) = build_tools-Built range operation tools ([], []) w empty-IsSound in
      both_lem w w' b.0 (b.1, built)
        (b.1, subst (λ v. build_tools range operation tools ([], []) v ≡ some b) same built) sound
  build_tool_aliases_reversed w w' (inr flat) =
      let (t, built, sound) = flat-Built range operation tools ([], []) flat empty-IsSound in
      both_lem w w' t (w, built w) (w', built w') sound
