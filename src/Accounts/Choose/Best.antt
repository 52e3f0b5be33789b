-- ===== src/Accounts/Choose/Best.antt =====
-- The account that is chosen is one of the candidates, and there is one unless there are none.
use grok_go.Base.{
  ℕ, suc, ◌<◌, ◌≡◌, ◌⊎◌, inl, refl, String, Bool, true, Option, none, some, List, [], ◌∷◌, ◌==◌,
  arith, if◌then◌else◌, if_cases, Holds, All, All-keep, Holds-get_elem?, get_elem?_some, keep,
  length, eqb, ltb, is_some,
}
use grok_go.Base.Map.{Map}
use grok_go.Base.Float.{Float}
use grok_go.Domain.{Time}
use grok_go.Accounts.Policy.{Policy, strategy_round_robin}
use grok_go.Accounts.Pool.{Selection, AffinityEntry}
use grok_go.Accounts.Select.{Candidate}
use grok_go.Accounts.Choose.{
  tier_of, best_tier, preferred, account_id, find_account, insert_sorted, sort_by_id, find_bound,
  bound_account, beats, best_of, pick, in_turn, choose_among, choose,
}

module _ {F : Type 0} (P : Candidate F → Type 0) where
  find_account-Holds :
      (id : String) (cs : List (Candidate F)) → All P cs → Holds P (find_account id cs)
  unfolding find_account
  find_account-Holds id [] h = tt
  find_account-Holds id (c ∷ cs) h =
      if_cases (Holds P) (account_id c == id) (some c) (find_account id cs) (λ _. h.0)
        (λ _. find_account-Holds id cs h.1)

  insert_sorted-All :
      (c : Candidate F) (ds : List (Candidate F)) → P c → All P ds → All P (insert_sorted c ds)
  unfolding insert_sorted
  insert_sorted-All c [] p h = (p, tt)
  insert_sorted-All c (d ∷ ds) p h =
      if_cases (All P) _ (d ∷ insert_sorted c ds) (c ∷ d ∷ ds)
        (λ _. (h.0, insert_sorted-All c ds p h.1)) (λ _. (p, h))

  sort_by_id-All : (cs : List (Candidate F)) → All P cs → All P (sort_by_id cs)
  unfolding sort_by_id
  sort_by_id-All [] h = tt
  sort_by_id-All (c ∷ cs) h = insert_sorted-All c (sort_by_id cs) h.0 (sort_by_id-All cs h.1)

  find_bound-Holds :
      (bound : Option String) (cs : List (Candidate F)) → All P cs → Holds P (find_bound bound cs)
  unfolding find_bound
  find_bound-Holds none cs h = tt
  find_bound-Holds (some id) cs h = find_account-Holds id cs h

  preferred-All :
      (b : Bool) (c : Candidate F) (cs : List (Candidate F))
      → All P (c ∷ cs)
      → All P (preferred b c cs)
  unfolding preferred
  preferred-All b c cs h =
      if_cases (All P) b _ (c ∷ cs)
        (λ _. All-keep P (λ d. eqb (tier_of d) (best_tier (tier_of c) cs)) (c ∷ cs) h) (λ _. h)

module _ {F : Type 0} (P : Candidate F → Type 0) where
  in_turn-Holds :
      (model : String) (cursors : Map ℕ) (c : Candidate F) (cs : List (Candidate F))
      → All P (c ∷ cs)
      → Holds P (in_turn model cursors c cs).0
  unfolding in_turn
  in_turn-Holds model cursors c cs h =
      Holds-get_elem? P (sort_by_id (c ∷ cs)) _ (sort_by_id-All P (c ∷ cs) h)

module _ {F : Type 0} (fl : Float F) (P : Candidate F → Type 0) where
  best_of-All :
      (now : Time) (best : Candidate F) (cs : List (Candidate F))
      → P best
      → All P cs
      → P (best_of fl now best cs)
  unfolding best_of
  best_of-All now best [] p h = p
  best_of-All now best (c ∷ cs) p h =
      best_of-All now (if beats fl now c best then c else best) cs
        (if_cases P (beats fl now c best) c best (λ _. h.0) (λ _. p)) h.1

module _ {F : Type 0} (fl : Float F) (P : Candidate F → Type 0) (policy : Policy) (sel : Selection)
    (now : Time) where
  pick-Holds :
      (cursors : Map ℕ) (c : Candidate F) (cs : List (Candidate F))
      → All P (c ∷ cs)
      → Holds P (pick fl policy sel now cursors c cs).0
  unfolding pick
  pick-Holds cursors c cs h =
      if_cases {A = Option (Candidate F) × Map ℕ} (λ r. Holds P r.0)
        (policy.strategy == strategy_round_robin) (in_turn sel.model.id cursors c cs)
        (some (best_of fl now c cs), cursors) (λ _. in_turn-Holds P sel.model.id cursors c cs h)
        (λ _. best_of-All fl P now c cs h.0 h.1)

  choose_among-Holds :
      (affinities : Map AffinityEntry) (cursors : Map ℕ) (cs : List (Candidate F))
      → All P cs
      → Holds P (choose_among fl policy sel now affinities cursors cs).0
  unfolding choose_among
  choose_among-Holds affinities cursors [] h = tt
  choose_among-Holds affinities cursors (c ∷ cs) h =
      bound_or_pick (find_bound (bound_account policy sel now affinities) (c ∷ cs))
        (find_bound-Holds P (bound_account policy sel now affinities) (c ∷ cs) h)
    where
      bound_or_pick :
          (o : Option (Candidate F))
          → Holds P o
          → Holds P
              (elim o as (λ _. Option (Candidate F) × Map ℕ) [
                | some bound ↦ (some bound, cursors)
                | none ↦ pick fl policy sel now cursors c cs
              ]).0
      bound_or_pick none _ = pick-Holds cursors c cs h
      bound_or_pick (some b) p = p

  -- What holds of every candidate holds of the one that is chosen.
  pub choose-Holds :
      (affinities : Map AffinityEntry) (cursors : Map ℕ) (cs : List (Candidate F))
      → All P cs
      → Holds P (choose fl policy sel now affinities cursors cs).0
  unfolding choose
  choose-Holds affinities cursors [] h = tt
  choose-Holds affinities cursors (c ∷ cs) h =
      choose_among-Holds affinities cursors (preferred sel.model.prefer_best c cs)
        (preferred-All P sel.model.prefer_best c cs h)

-- There is a choice wherever there is a candidate.
module _ {F : Type 0} where
  keep_best :
      (best : ℕ) (cs : List (Candidate F))
      → (best_tier best cs ≡ best)
        ⊎ (ltb 0 (length (keep (λ d. eqb (tier_of d) (best_tier best cs)) cs)) ≡ true)
  unfolding best_tier
  keep_best best [] = inl refl
  keep_best best (c ∷ cs) =
      ground (arith, keep_best (if ltb best (tier_of c) then tier_of c else best) cs)

  preferred_nonempty :
      (b : Bool) (c : Candidate F) (cs : List (Candidate F)) → 0 < length (preferred b c cs)
  unfolding preferred
  preferred_nonempty b c cs = ground (arith, keep_best (tier_of c) cs)

  length-insert_sorted :
      (c : Candidate F) (ds : List (Candidate F)) → length (insert_sorted c ds) ≡ suc (length ds)
  unfolding insert_sorted
  length-insert_sorted c [] = refl
  length-insert_sorted c (d ∷ ds) = ground (arith, length-insert_sorted c ds)

  length-sort_by_id : (cs : List (Candidate F)) → length (sort_by_id cs) ≡ length cs
  unfolding sort_by_id
  length-sort_by_id [] = refl
  length-sort_by_id (c ∷ cs) =
      omega (arith, length-insert_sorted c (sort_by_id cs), length-sort_by_id cs)

module _ {F : Type 0} where
  in_turn_some :
      (model : String) (cursors : Map ℕ) (c : Candidate F) (cs : List (Candidate F))
      → is_some (in_turn model cursors c cs).0 ≡ true
  unfolding in_turn
  in_turn_some model cursors c cs =
      get_elem?_some (sort_by_id (c ∷ cs)) _ (omega (arith, length-sort_by_id (c ∷ cs)))

module _ {F : Type 0} (fl : Float F) (policy : Policy) (sel : Selection) (now : Time) where
  pick_some :
      (cursors : Map ℕ) (c : Candidate F) (cs : List (Candidate F))
      → is_some (pick fl policy sel now cursors c cs).0 ≡ true
  unfolding pick
  pick_some cursors c cs = ground (arith, in_turn_some sel.model.id cursors c cs)

  choose_among_some :
      (affinities : Map AffinityEntry) (cursors : Map ℕ) (cs : List (Candidate F))
      → 0 < length cs
      → is_some (choose_among fl policy sel now affinities cursors cs).0 ≡ true
  unfolding choose_among
  choose_among_some affinities cursors [] h = elim h [ ]
  choose_among_some affinities cursors (c ∷ cs) h = ground (arith, pick_some cursors c cs)

  -- A selection fails only where there is no candidate.
  pub choose_some :
      (affinities : Map AffinityEntry) (cursors : Map ℕ) (cs : List (Candidate F))
      → (choose fl policy sel now affinities cursors cs).0 ≡ none
      → cs ≡ []
  unfolding choose
  choose_some affinities cursors [] h = refl
  choose_some affinities cursors (c ∷ cs) h = cc (
    h,
    choose_among_some affinities cursors (preferred sel.model.prefer_best c cs)
        (preferred_nonempty sel.model.prefer_best c cs),
  )
