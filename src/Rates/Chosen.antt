-- ===== src/Rates/Chosen.antt =====
-- Which of the margins is chosen, in terms of their columns.
use mathlib.Core.List.{Memᴰ}
use saas_frontend.Base.{
  ℕ, ◌≤◌, ◌≡◌, refl, subst, ap, true, false, ◌&&◌, Option, none, some, List, [], ◌∷◌, arith, All,
  map-All, Bool-cases, Option-cases, inl, inr, ◌⊎◌, ==_iff, Option-cases,
}
use saas_frontend.Rates.Margins.{
  SellerTier, standard, growth, enterprise, all_tiers, same_tier, CarrierMarginConfig, is_in_force,
  is_seller, comes_before, first_of, resolve_margin,
}
use saas_frontend.Rates.First.{resolve_margin-IsFirst}

-- A margin of a carrier on a day that its dates cover.
abbrev pub Applies : ℕ → ℕ → CarrierMarginConfig → Type 0
Applies carrier today x =
    (x.carrier_id ≡ carrier)
    × (x.effective_from ≤ today)
    × ((last : ℕ) → x.effective_until ≡ some last → today ≤ last)

-- The seller's own margins come before all others, then those of its tier, then those for all tiers;
-- and among the own ones, those of the tier and those for all, the newest.
abbrev pub Yields : ℕ → SellerTier → CarrierMarginConfig → CarrierMarginConfig → Type 0
Yields seller tier r x =
    (x.seller_id ≡ some seller → (r.seller_id ≡ some seller) × (x.created_at ≤ r.created_at))
    × (x.seller_tier ≡ tier
        → (r.seller_id ≡ some seller) ⊎ ((r.seller_tier ≡ tier) × (x.created_at ≤ r.created_at)))
    × (x.seller_tier ≡ all_tiers
        → (r.seller_id ≡ some seller)
          ⊎ (r.seller_tier ≡ tier)
          ⊎ ((r.seller_tier ≡ all_tiers) × (x.created_at ≤ r.created_at)))

tier_of_code : (a b : SellerTier) → same_tier a b ≡ true → a ≡ b
tier_of_code standard standard h = refl
tier_of_code growth growth h = refl
tier_of_code enterprise enterprise h = refl
tier_of_code all_tiers all_tiers h = refl
tier_of_code standard growth h = ground arith
tier_of_code standard enterprise h = ground arith
tier_of_code standard all_tiers h = ground arith
tier_of_code growth standard h = ground arith
tier_of_code growth enterprise h = ground arith
tier_of_code growth all_tiers h = ground arith
tier_of_code enterprise standard h = ground arith
tier_of_code enterprise growth h = ground arith
tier_of_code enterprise all_tiers h = ground arith
tier_of_code all_tiers standard h = ground arith
tier_of_code all_tiers growth h = ground arith
tier_of_code all_tiers enterprise h = ground arith

same_tier_self : (a b : SellerTier) → a ≡ b → same_tier a b ≡ true
same_tier_self a b e = ground (arith, e)

seller_of : (seller : ℕ) (o : Option ℕ) → is_seller seller o ≡ true → o ≡ some seller
seller_of seller none h = ground arith
seller_of seller (some id) h = ap some ((==_iff id seller).0 h)

is_seller_self : (seller : ℕ) (o : Option ℕ) → o ≡ some seller → is_seller seller o ≡ true
is_seller_self seller o e = rw e ((==_iff seller seller).1 refl)

module _ (carrier seller : ℕ) (tier : SellerTier) (today : ℕ) where
  Applies-in_force :
      (x : CarrierMarginConfig) → Applies carrier today x → is_in_force carrier today x ≡ true
  Applies-in_force x (same, since, until) = elim (Option-cases x.effective_until) [
    | inl endless ↦ ground (arith, same, since, endless)
    | inr (last, e) ↦ ground (arith, same, since, e, until last e)
  ]

  in_force-Applies :
      (x : CarrierMarginConfig) → is_in_force carrier today x ≡ true → Applies carrier today x
  in_force-Applies x h = (ground (arith, h), ground (arith, h), λ last e. ground (arith, h, e))

  yields :
      (r x : CarrierMarginConfig) → comes_before seller tier x r ≡ false → Yields seller tier r x
  yields r x worse = (own, of_tier, for_all)
    where
      own : x.seller_id ≡ some seller → (r.seller_id ≡ some seller) × (x.created_at ≤ r.created_at)
      own e =
          let there = is_seller_self seller x.seller_id e in
          elim (Bool-cases (is_seller seller r.seller_id)) [
            | inl mine ↦ (seller_of seller r.seller_id mine, ground (arith, worse, there, mine))
            | inr other ↦ absurd (ground (arith, worse, there, other))
          ]

      of_tier :
          x.seller_tier ≡ tier
          → (r.seller_id ≡ some seller) ⊎ ((r.seller_tier ≡ tier) × (x.created_at ≤ r.created_at))
      of_tier e =
          let there = same_tier_self x.seller_tier tier e in
          elim (Bool-cases (is_seller seller r.seller_id)) [
            | inl mine ↦ inl (seller_of seller r.seller_id mine)
            | inr other ↦ elim (Bool-cases (same_tier r.seller_tier tier)) [
              | inl its ↦ elim (Bool-cases (is_seller seller x.seller_id)) [
                | inl first ↦ absurd (ground (arith, worse, first, other))
                | inr not_own ↦ inr (
                  tier_of_code r.seller_tier tier its,
                  ground (arith, worse, there, other, its, not_own),
                )
              ]
              | inr away ↦ absurd (ground (arith, worse, there, other, away))
            ]
          ]

      for_all :
          x.seller_tier ≡ all_tiers
          → (r.seller_id ≡ some seller)
            ⊎ (r.seller_tier ≡ tier)
            ⊎ ((r.seller_tier ≡ all_tiers) × (x.created_at ≤ r.created_at))
      for_all e =
          let there = same_tier_self x.seller_tier all_tiers e in
          elim (Bool-cases (is_seller seller r.seller_id)) [
            | inl mine ↦ inl (seller_of seller r.seller_id mine)
            | inr other ↦ elim (Bool-cases (same_tier r.seller_tier tier)) [
              | inl its ↦ inr (inl (tier_of_code r.seller_tier tier its))
              | inr away ↦ elim (Bool-cases (same_tier r.seller_tier all_tiers)) [
                | inl all ↦ inr (
                    inr (
                      tier_of_code r.seller_tier all_tiers all,
                      ground (arith, worse, there, other, away, all),
                    ))
                | inr neither ↦ absurd (ground (arith, worse, there, other, away, neither))
              ]
            ]
          ]

  first_of-Mem :
      (c : CarrierMarginConfig) (cs : List CarrierMarginConfig)
      → Memᴰ (first_of seller tier carrier today c cs) (c ∷ cs)
  first_of-Mem c [] = Memᴰ.head refl
  first_of-Mem c (x ∷ xs) =
      elim (Bool-cases (is_in_force carrier today x && comes_before seller tier x c)) [
        | inl better ↦ rw better (Memᴰ.tail (first_of-Mem x xs))
        | inr worse ↦ rw worse (skip x (first_of-Mem c xs))
      ]
    where
      skip :
          {a c : CarrierMarginConfig} {xs : List CarrierMarginConfig} (x : CarrierMarginConfig)
          → Memᴰ a (c ∷ xs)
          → Memᴰ a (c ∷ x ∷ xs)
      skip x (Memᴰ.head e) = Memᴰ.head e
      skip x (Memᴰ.tail m) = Memᴰ.tail (Memᴰ.tail m)

  resolve_margin-Mem :
      (cs : List CarrierMarginConfig) (r : CarrierMarginConfig)
      → resolve_margin carrier seller tier today cs ≡ some r
      → Memᴰ r cs
  unfolding resolve_margin
  resolve_margin-Mem [] r e = cc
  resolve_margin-Mem (c ∷ cs) r e = elim (Bool-cases (is_in_force carrier today c)) [
    | inl there ↦
        subst (λ (a : CarrierMarginConfig). Memᴰ a (c ∷ cs)) (ground (arith, e, there))
          (first_of-Mem c cs)
    | inr out ↦ Memᴰ.tail (resolve_margin-Mem cs r (ground (arith, e, out)))
  ]

  -- The margin that is found for a seller is one of the rows, is for the carrier, and its dates cover
  -- the day. No row that is for the carrier and the day has precedence over it: not one of the seller
  -- itself, one of its tier, or one for all tiers, in this order and the newest first. Where none is
  -- found, no row is for the carrier and the day.
  pub resolve_margin-chooses :
      (cs : List CarrierMarginConfig)
      → ((resolve_margin carrier seller tier today cs ≡ none)
          × All (λ x. Applies carrier today x → ⊥) cs)
        ⊎ ((r : CarrierMarginConfig) × (resolve_margin carrier seller tier today cs ≡ some r)
            × Memᴰ r cs
            × Applies carrier today r
            × All (λ x. Applies carrier today x → Yields seller tier r x) cs)
  resolve_margin-chooses cs = elim (resolve_margin-IsFirst carrier seller tier today cs) [
    | inl (nothing, out) ↦
        inl (nothing, map-All _ _ cs (λ x out yes. ground (arith, out, Applies-in_force x yes)) out)
    | inr (r, found, (force, rest)) ↦ inr (
      r,
      found,
      resolve_margin-Mem cs r found,
      in_force-Applies r force,
      map-All _ _ cs (λ x waits yes. yields r x (waits (Applies-in_force x yes))) rest,
    )
  ]
