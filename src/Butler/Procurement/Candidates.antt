-- ===== src/Butler/Procurement/Candidates.antt =====
-- What a candidate is that `procure` of roster/procurement-butler/butler.ts keeps.
use mathlib.Core.Path.{Path, subst}
use dacs_agent_reference.Common.{
  ℕ, ◌≤◌, String, Bool, true, false, not, ◌&&◌, Option, none, some, List, [], ◌∷◌, ◌≡◌, refl, inl,
  inr, ◌⊎◌, arith, All, All-map, Some, Bool-cases, is_empty, ltb,
}
use dacs_agent_reference.Butler.Types.{
  PaymentRail, Listing, ProcurementGoal, ButlerConfig, Exclusion,
}
use dacs_agent_reference.Butler.Procurement.{
  ask_price_of, best_rail, Viable, units_of, has_capability, missing_tags, Screening, excluded,
  viable, screen_rail, screen, viable_of,
}

viable_inj :
    {lower : String → String} {locale_le : String → String → Bool} {config : ButlerConfig}
    {v w : Viable}
    → Path (Screening lower locale_le config) (viable v) (viable w)
    → v ≡ w
viable_inj h = ground arith

Screening-cases :
    {lower : String → String} {locale_le : String → String → Bool} {config : ButlerConfig}
    (x : Screening lower locale_le config)
    → ((why : Exclusion) × ((rail : Option PaymentRail) × (x ≡ excluded why rail)))
      ⊎ ((v : Viable) × (x ≡ viable v))
Screening-cases (excluded why rail) = inl (why, (rail, refl))
Screening-cases (viable v) = inr (v, refl)

pub All-Some : (ls : List Listing) → All (λ x. Some (λ l. l ≡ x) ls) ls
All-Some [] = tt
All-Some (x ∷ ls) =
    (inl refl, All-map {P = λ y. Some (λ l. l ≡ y) ls} (λ y k. inr k) ls (All-Some ls))

module _ (lower : String → String) (locale_le : String → String → Bool) (config : ButlerConfig)
    (goal : ProcurementGoal) (budget : ℕ) (listings : List Listing) where
  -- A listing that fits the goal, and the rail to pay it by.
  pub record Fits (listing : Listing) (rail : PaymentRail) : Type 0 where
    pub listed : Some (λ l. l ≡ listing) listings
    pub capable :
        All (λ t. has_capability lower locale_le config listing t ≡ true) goal.required_capabilities
    pub payable : best_rail config.rail_preference listing.rails ≡ some rail

  missing_tags-nil :
      (listing : Listing) (tags : List String)
      → missing_tags lower locale_le config listing tags ≡ []
      → All (λ t. has_capability lower locale_le config listing t ≡ true) tags
  missing_tags-nil listing [] h = tt
  missing_tags-nil listing (t ∷ tags) h =
      elim (Bool-cases (has_capability lower locale_le config listing t)) [
        | inl has ↦ (has, missing_tags-nil listing tags (rw (has, missing_tags) at h))
        | inr lacks ↦ absurd (ground arith)
      ]

  abbrev pub IsViable : Viable → Type 0
  IsViable v = Fits v.listing v.rail × (v.listing.negotiable ≡ false → v.ask ≤ budget)

  screen_rail-IsViable :
      (listing : Listing) (ask : ℕ) (rail : Option PaymentRail) (v : Viable)
      → Some (λ l. l ≡ listing) listings
      → All (λ t. has_capability lower locale_le config listing t ≡ true) goal.required_capabilities
      → best_rail config.rail_preference listing.rails ≡ rail
      → screen_rail lower locale_le config listing ask budget rail ≡ viable v
      → IsViable v
  unfolding screen_rail
  screen_rail-IsViable listing ask none v l c p h = absurd (ground arith)
  screen_rail-IsViable listing ask (some rail) v l c p h =
      elim (Bool-cases (not listing.negotiable && ltb budget ask)) [
        | inl t ↦ absurd (ground arith)
        | inr f ↦
            subst IsViable (viable_inj (rw (f, screen_rail) at h))
              (record { listed = l; capable = c; payable = p }, λ fixed. in_budget fixed f)
      ]
    where
      in_budget :
          listing.negotiable ≡ false
          → (not listing.negotiable && ltb budget ask) ≡ false
          → ask ≤ budget
      in_budget fixed f = ground arith

  screen-IsViable :
      (listing : Listing) (v : Viable)
      → Some (λ l. l ≡ listing) listings
      → screen lower locale_le config goal budget listing ≡ viable v
      → IsViable v
  unfolding screen
  screen-IsViable listing v l h =
      let tags = missing_tags lower locale_le config listing goal.required_capabilities in
      elim (Bool-cases (not (is_empty tags))) [
        | inl t ↦ absurd (ground arith)
        | inr f ↦
            screen_rail-IsViable listing (ask_price_of listing.fees (units_of goal)) _ v l
              (missing_tags-nil listing goal.required_capabilities (none_missing tags f)) refl
              (rw (f, screen) at h)
      ]
    where
      none_missing : (tags : List String) → not (is_empty tags) ≡ false → tags ≡ []
      none_missing [] f = refl
      none_missing (t ∷ tags) f = ground arith

  pub viable_of-IsViable :
      (ls : List Listing)
      → All (λ x. Some (λ l. l ≡ x) listings) ls
      → All IsViable (viable_of lower locale_le config goal budget ls)
  viable_of-IsViable [] h = tt
  viable_of-IsViable (listing ∷ ls) h =
      elim (Screening-cases (screen lower locale_le config goal budget listing)) [
        | inl (why, (rail, e)) ↦ rw (e, viable_of) (viable_of-IsViable ls h.1)
        | inr (v, e) ↦
            rw (e, viable_of) (screen-IsViable listing v h.0 e, viable_of-IsViable ls h.1)
      ]
