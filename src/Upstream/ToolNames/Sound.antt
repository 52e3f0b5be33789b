-- ===== src/Upstream/ToolNames/Sound.antt =====
-- The aliases of a request's tools can always be built, and no two names share one.
use grok_go.Base.{
  ◌≡◌, refl, ap, sym, ◌∙◌, subst, Option, none, some, List, [], ◌∷◌, true, false, ◌==◌, inl, inr,
  arith, if_cases, String,
}
use grok_go.Base.Text.Match.{codes_eq_self}
use grok_go.Gateway.{Operation}
use grok_go.Upstream.ToolNames.{
  in_world, Range, Name, Aliases, Naming, Tool, Tools, is_used, set_alias, give_alias, give_all,
  give_named, name_of, preferred_tool_alias, build_tool, build_tools,
}
use grok_go.Upstream.ToolNames.Fresh.{unique_tool_alias-fresh}
use grok_go.Upstream.ToolNames.Entries.{In, In-set_alias}

-- The names in use cover the aliases, and no two names have one alias.
pub record IsSound (s : Naming) : Type 0 where
  pub covered : (name alias : Name) → In name alias s.0 → is_used s.1 alias ≡ true
  pub apart : (name other alias : Name) → In name alias s.0 → In other alias s.0 → name ≡ other

abbrev Succeeds : Option Naming → Type 0
Succeeds o = (t : Naming) × (o ≡ some t) × IsSound t

module _ (alias : Name) (aliases : Aliases) (used : List Name) (fresh : is_used used alias ≡ false)
    (sound : IsSound (aliases, used)) where
  not_yet : (name value : Name) → alias ≡ value → In name value aliases → ⊥
  not_yet name value e h =
      let old : is_used used value ≡ true = sound.covered name value h in
      let new : is_used used value ≡ false = subst (λ v. is_used used v ≡ false) e fresh in cc

  set_alias-IsSound : (original : Name) → IsSound (set_alias original alias aliases, alias ∷ used)
  set_alias-IsSound original = record {
    covered = λ name value h. elim (In-set_alias name value original alias aliases h) [
      | inl e ↦ rw (sym e.1) (ground (arith, codes_eq_self alias))
      | inr e ↦ ground (arith, sound.covered name value e)
    ];
    apart = λ name other value h k. elim (In-set_alias name value original alias aliases h) [
      | inl e ↦ elim (In-set_alias other value original alias aliases k) [
        | inl f ↦ sym e.0 ∙ f.0
        | inr f ↦ absurd (not_yet other value e.1 f)
      ]
      | inr e ↦ elim (In-set_alias other value original alias aliases k) [
        | inl f ↦ absurd (not_yet name value f.1 e)
        | inr f ↦ sound.apart name other value e f
      ]
    ];
  }

give_alias-Succeeds :
    (original alias : Name) (s : Naming) → IsSound s → Succeeds (give_alias original alias s)
unfolding give_alias
give_alias-Succeeds original alias (aliases, used) sound =
    let (unique, found, fresh) = unique_tool_alias-fresh alias used in
    (
      (set_alias original unique aliases, unique ∷ used),
      ap
          (λ o. elim o [
            | none ↦ none
            | some (name, more) ↦ some (set_alias original name aliases, more)
          ])
          found,
      set_alias-IsSound unique aliases used fresh sound original,
    )

-- A step after one that succeeds.
then-Succeeds :
    (f : Naming → Option Naming) (o : Option Naming)
    → Succeeds o
    → ((t : Naming) → IsSound t → Succeeds (f t))
    → Succeeds (elim o [ none ↦ none | some t ↦ f t ])
then-Succeeds f o (t, e, sound) next =
    subst (λ p. Succeeds (elim p [ none ↦ none | some u ↦ f u ])) (sym e) (next t sound)

give_all-Succeeds : (others : Aliases) (s : Naming) → IsSound s → Succeeds (give_all others s)
unfolding give_all
give_all-Succeeds [] s sound = (s, refl, sound)
give_all-Succeeds ((original, alias) ∷ others) s sound =
    then-Succeeds (give_all others) _ (give_alias-Succeeds original alias s sound)
      (give_all-Succeeds others)

give_named-Succeeds : (name : Name) (s : Naming) → IsSound s → Succeeds (give_named name s)
unfolding give_named
give_named-Succeeds [] s sound = (s, refl, sound)
give_named-Succeeds (c ∷ name) s sound =
    give_alias-Succeeds (c ∷ name) (preferred_tool_alias (c ∷ name)) s sound

pub empty-IsSound : IsSound ([], [])
empty-IsSound = record {
  covered = λ name alias h. elim h [ ];
  apart = λ name other alias h k. elim h [ ];
}

module _ {W : Type 0} where
  abbrev pub Built : Option (Naming × W) → Type 0
  Built o = (t : Naming × W) × (o ≡ some t) × IsSound t.0

  in_world-Built : (w : W) (o : Option Naming) → Succeeds o → Built (in_world w o)
  in_world-Built w o (t, e, sound) = ((t, w), ap (in_world w) e, sound)

  then-Built :
      (f : Naming × W → Option (Naming × W)) (o : Option (Naming × W))
      → Built o
      → ((t : Naming × W) → IsSound t.0 → Built (f t))
      → Built (elim o [ none ↦ none | some t ↦ f t ])
  then-Built f o (t, e, sound) next =
      subst (λ p. Built (elim p [ none ↦ none | some u ↦ f u ])) (sym e) (next t sound)

module _ {W : Type 0} (range : Range W) (operation : Operation) where
  mutual
    unfolding build_tool build_tools

    build_tool-Built :
        (t : Tool) (s : Naming) (w : W) → IsSound s → Built (build_tool range operation t s w)
    build_tool-Built Tool.other s w sound = ((s, w), refl, sound)
    build_tool-Built (Tool.tool kind function name tools) s w sound =
        if_cases Built (kind == "namespace") _ _
          (λ _.
            then-Built
              (λ (built, w1). in_world (range built.0 w1).1 (give_all (range built.0 w1).0 s)) _
              (build_tools-Built tools ([], []) w empty-IsSound)
              (λ t _.
                in_world-Built (range t.0.0 t.1).1 _
                  (give_all-Succeeds (range t.0.0 t.1).0 s sound)))
          (λ _.
            in_world-Built w _ (give_named-Succeeds (name_of operation kind function name) s sound))

    pub build_tools-Built :
        (ts : Tools) (s : Naming) (w : W) → IsSound s → Built (build_tools range operation ts s w)
    build_tools-Built Tools.end s w sound = ((s, w), refl, sound)
    build_tools-Built (Tools.entry first tools) s w sound =
        then-Built (λ (t, w1). build_tools range operation tools t w1) _
          (build_tool-Built first s w sound) (λ t known. build_tools-Built tools t.0 t.1 known)

-- No tool is a namespace.
abbrev pub IsFlat : Tools → Type 0
IsFlat Tools.end = Unit
IsFlat (Tools.entry Tool.other tools) = IsFlat tools
IsFlat (Tools.entry (Tool.tool kind function name inner) tools) =
    ((kind == "namespace") ≡ false) × IsFlat tools

module _ {W : Type 0} (range : Range W) (operation : Operation) where
  build_tool_plain :
      (kind : String) (function : Option Name) (name : Name) (inner : Tools) (s : Naming) (w : W)
      → (kind == "namespace") ≡ false
      → build_tool range operation (Tool.tool kind function name inner) s w
        ≡ in_world w (give_named (name_of operation kind function name) s)
  unfolding build_tool
  build_tool_plain kind function name inner s w named =
      if_cases (λ r. r ≡ in_world w (give_named (name_of operation kind function name) s))
        (kind == "namespace") _ _ (λ yes. absurd (ground (arith, named, yes))) (λ _. refl)

  -- Without namespaces the world has no say.
  pub flat-Built :
      (ts : Tools) (s : Naming)
      → IsFlat ts
      → IsSound s
      → (t : Naming) × ((w : W) → build_tools range operation ts s w ≡ some (t, w)) × IsSound t
  unfolding build_tools build_tool
  flat-Built Tools.end s flat sound = (s, (λ w. refl), sound)
  flat-Built (Tools.entry Tool.other tools) s flat sound = flat-Built tools s flat sound
  flat-Built (Tools.entry (Tool.tool kind function name inner) tools) s (named, flat) sound =
      let (t, e, known) = give_named-Succeeds (name_of operation kind function name) s sound in
      let (u, built, good) = flat-Built tools t flat known in
      (
        u,
        (λ w.
            ap (λ o. elim o [ none ↦ none | some (v, w1) ↦ build_tools range operation tools v w1 ])
              (build_tool_plain kind function name inner s w named ∙ ap (in_world w) e)
            ∙ built w),
        good,
      )
