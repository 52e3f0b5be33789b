-- ===== src/Database/Deadlines.antt =====
-- The script of SetIfGreater, which keeps the latest deadline of a cooldown.
use grok_go.Base.{
  ◌^◌, ◌≤◌, ◌<◌, some_inj, sym, ℕ, ◌≡◌, ◌∙◌, refl, ap, ◌⊎◌, inl, inr, String, true, false, Option,
  none, some, arith, if_cases,
}
use grok_go.Base.Int.{ℤ, pos, ◌<ℤ◌, leb_ℤ}
use grok_go.Base.Result.{Result, ok}
use grok_go.ApiKey.Windows.{format_int}
use grok_go.Database.Server.{Server, Reply, integer, now_of, IsRounding}
use grok_go.Database.Scripts.{set_if_greater_script, stored_number, is_reached}

le_of : (a b : ℕ) → leb_ℤ (pos a) (pos b) ≡ true → a ≤ b
le_of a b h = ground (arith, h)

later_of : (a b ra rb : ℕ) → (b ≤ a → rb ≤ ra) → leb_ℤ (pos rb) (pos ra) ≡ false → a < b
later_of a b ra rb mono h = ground (arith, mono, h)

module _ {S : Type 0} (srv : Server S) (round : ℕ → ℕ) (k : String) where
  -- The deadline is raised to a later one, or it stays.
  pub record Raises (old new : ℕ) (r : Result Reply × S) : Type 0 where
    pub outcome :
        ((r.0 ≡ ok (integer (pos 1))) × (srv.get k r.1 ≡ some (format_int (pos new))) × (old < new))
        ⊎ ((r.0 ≡ ok (integer (pos 0)))
            × (srv.get k r.1 ≡ some (format_int (pos old)))
            × (round new ≤ round old))

module _ {S : Type 0} (srv : Server S) (round : ℕ → ℕ) (laws : IsRounding srv format_int round)
    (k : String) (old new : ℕ) (expires : ℤ) (s : S) where
  stored_lem :
      (o : Option String)
      → o ≡ some (format_int (pos old))
      → srv.tonumber (format_int (pos old)) ≡ some (pos (round old))
      → (elim o [ none ↦ none | some text ↦ srv.tonumber text ]) ≡ some (pos (round old))
  stored_lem none e h = cc
  stored_lem (some text) e h = ap srv.tonumber (some_inj text (format_int (pos old)) e) ∙ h

  -- Over a deadline that is stored, SetIfGreater with an expiry in the future never moves it back.
  pub set_if_greater-Raises :
      old < 2 ^ 63
      → new < 2 ^ 63
      → srv.get k s ≡ some (format_int (pos old))
      → pos (now_of srv s) <ℤ expires
      → Raises srv round k old new (set_if_greater_script srv k (format_int (pos new)) expires s)
  unfolding set_if_greater_script
  set_if_greater-Raises old_small new_small stored future =
      let current : stored_number srv k s ≡ some (pos (round old)) =
        stored_lem (srv.get k s) stored (laws.tonumber_text old old_small) in
      let tested : is_reached srv (stored_number srv k s) (srv.tonumber (format_int (pos new)))
          ≡ leb_ℤ (pos (round new)) (pos (round old)) =
        ap (λ o. is_reached srv o (srv.tonumber (format_int (pos new)))) current
        ∙ ap (λ o. is_reached srv (some (pos (round old))) o) (laws.tonumber_text new new_small) in
      let written = srv.set k (format_int (pos new)) s in
      if_cases (Raises srv round k old new)
        (is_reached srv (stored_number srv k s) (srv.tonumber (format_int (pos new)))) _ _
        (λ reached. record {
          outcome = inr (refl, stored, le_of (round new) (round old) (sym tested ∙ reached));
        })
        (λ short. record {
          outcome = inl (
            refl,
            laws.pexpireat_get k expires written
                  (rw (laws.set_time k (format_int (pos new)) s) future)
                ∙ laws.set_get k (format_int (pos new)) s,
            later_of old new (round old) (round new) (laws.round_mono new old) (sym tested ∙ short),
          );
        })
