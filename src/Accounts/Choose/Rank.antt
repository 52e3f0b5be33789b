-- ===== src/Accounts/Choose/Rank.antt =====
-- The choice by score takes a highest score, and the preference for the best tier a highest tier.
use grok_go.Base.{
  ℕ, ◌≤◌, ◌≡◌, true, false, List, [], ◌∷◌, arith, if◌then◌else◌, if_cases, All, All-map, keep, eqb,
  ltb,
}
use grok_go.Base.Float.{Float, IsOrdered}
use grok_go.Domain.{Time}
use grok_go.Accounts.Select.{Candidate}
use grok_go.Accounts.Choose.{tier_of, best_tier, preferred, beats, best_of, score}

module _ {F : Type 0} (fl : Float F) (o : IsOrdered fl) (now : Time) where
  abbrev score_of : Candidate F → F
  score_of (id, s) = score fl s now

  -- `c` has no lower score than `d`.
  abbrev pub AtLeast : Candidate F → Candidate F → Type 0
  AtLeast c d = fl.lt (score_of c) (score_of d) ≡ false

  beats-AtLeast : (c d : Candidate F) → beats fl now c d ≡ true → AtLeast c d
  unfolding beats
  beats-AtLeast (i, s) (j, t) h = ground (
    arith,
    o.lt_asymm (score fl t now) (score fl s now),
    o.eq_not_lt (score fl s now) (score fl t now),
  )

  not-beats-AtLeast : (c d : Candidate F) → beats fl now c d ≡ false → AtLeast d c
  unfolding beats
  not-beats-AtLeast (i, s) (j, t) h = ground arith

  -- The better of two is at least as good as both.
  better-AtLeast :
      (c d : Candidate F)
      → AtLeast (if beats fl now c d then c else d) c
        × AtLeast (if beats fl now c d then c else d) d
  better-AtLeast c d =
      if_cases (λ r. AtLeast r c × AtLeast r d) (beats fl now c d) c d
        (λ h. (o.lt_irrefl (score_of c), beats-AtLeast c d h))
        (λ h. (not-beats-AtLeast c d h, o.lt_irrefl (score_of d)))

  -- By the laws of IsOrdered, no candidate has a higher score than the one that the loop ends with.
  pub best_of-AtLeast :
      (best : Candidate F) (cs : List (Candidate F))
      → AtLeast (best_of fl now best cs) best × All (λ d. AtLeast (best_of fl now best cs) d) cs
  unfolding best_of
  best_of-AtLeast best [] = (o.lt_irrefl (score_of best), tt)
  best_of-AtLeast best (c ∷ cs) =
      let b = if beats fl now c best then c else best in
      let r = best_of fl now b cs in
      let ih = best_of-AtLeast (if beats fl now c best then c else best) cs in
      let step = better-AtLeast c best in
      (
        o.not_lt_trans (score_of r) (score_of b) (score_of best) ih.0 step.1,
        (o.not_lt_trans (score_of r) (score_of b) (score_of c) ih.0 step.0, ih.1),
      )

module _ {F : Type 0} where
  best_tier-le :
      (best : ℕ) (cs : List (Candidate F))
      → (best ≤ best_tier best cs) × All (λ d. tier_of d ≤ best_tier best cs) cs
  unfolding best_tier
  best_tier-le best [] = (omega arith, tt)
  best_tier-le best (c ∷ cs) =
      let ih = best_tier-le (if ltb best (tier_of c) then tier_of c else best) cs in
      (ground (arith, ih.0), (ground (arith, ih.0), ih.1))

  keep_tier :
      (best : ℕ) (cs : List (Candidate F))
      → All (λ d. tier_of d ≡ best) (keep (λ d. eqb (tier_of d) best) cs)
  keep_tier best [] = tt
  keep_tier best (c ∷ cs) =
      if_cases (All (λ d. tier_of d ≡ best)) (eqb (tier_of c) best)
        (c ∷ keep (λ d. eqb (tier_of d) best) cs) (keep (λ d. eqb (tier_of d) best) cs)
        (λ h. (ground arith, keep_tier best cs)) (λ _. keep_tier best cs)

  -- With the preference on, every candidate that is left has a tier that none of them all exceeds.
  pub preferred_highest :
      (c : Candidate F) (cs : List (Candidate F))
      → All (λ d. All (λ e. tier_of e ≤ tier_of d) (c ∷ cs)) (preferred true c cs)
  unfolding preferred
  preferred_highest c cs =
      let best = best_tier (tier_of c) cs in
      All-map (λ d. tier_of d ≡ best) (λ d. All (λ e. tier_of e ≤ tier_of d) (c ∷ cs))
        (λ d e.
          All-map (λ x. tier_of x ≤ best) (λ x. tier_of x ≤ tier_of d) (λ x h. omega arith) (c ∷ cs)
            (best_tier-le (tier_of c) cs))
        (keep (λ d. eqb (tier_of d) best) (c ∷ cs)) (keep_tier best (c ∷ cs))
