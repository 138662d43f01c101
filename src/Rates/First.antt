-- ===== src/Rates/First.antt =====
-- Which margin applies.
use saas_frontend.Base.{
  ==_iff, ℕ, ◌≤◌, ◌≡◌, ◌≢◌, refl, ap, sym, ◌∙◌, subst, Bool, true, false, ◌&&◌, none, some, List,
  [], ◌∷◌, arith, All, map-All, Bool-cases, inl, inr, ◌⊎◌,
}
use saas_frontend.Rates.Configs.{MarginData, MarginTable, create_config, or_else}
use saas_frontend.Rates.Margins.{
  MarginType, SellerTier, all_tiers, same_tier, CarrierMarginConfig, is_in_force, is_seller, rank,
  is_before, comes_before, first_of, resolve_margin,
}

not_before_trans :
    (r s t a b c : ℕ)
    → is_before r a s b ≡ false
    → is_before s b t c ≡ false
    → is_before r a t c ≡ false
not_before_trans r s t a b c h k = ground arith

before_asym : (r s a b : ℕ) → is_before r a s b ≡ true → is_before s b r a ≡ false
before_asym r s a b h = ground arith

and_parts : (a b : Bool) → (a && b) ≡ true → (a ≡ true) × (b ≡ true)
and_parts a b h = (ground arith, ground arith)

and_false : (a b : Bool) → (a && b) ≡ false → a ≡ true → b ≡ false
and_false a b h k = ground arith

module _ (carrier seller : ℕ) (tier : SellerTier) (today : ℕ) where
  -- A row that is in force comes no earlier than another.
  abbrev pub Waits : CarrierMarginConfig → CarrierMarginConfig → Type 0
  Waits r x = is_in_force carrier today x ≡ true → comes_before seller tier x r ≡ false

  -- A row in force that none of the rows in force comes before.
  abbrev pub IsFirst : CarrierMarginConfig → List CarrierMarginConfig → Type 0
  IsFirst r cs = (is_in_force carrier today r ≡ true) × All (Waits r) cs

  comes_before_trans :
      (a b c : CarrierMarginConfig)
      → comes_before seller tier a b ≡ false
      → comes_before seller tier b c ≡ false
      → comes_before seller tier a c ≡ false
  comes_before_trans a b c =
      not_before_trans (rank seller tier a) (rank seller tier b) (rank seller tier c) a.created_at
        b.created_at c.created_at

  comes_before_asym :
      (a b : CarrierMarginConfig)
      → comes_before seller tier a b ≡ true
      → comes_before seller tier b a ≡ false
  comes_before_asym a b =
      before_asym (rank seller tier a) (rank seller tier b) a.created_at b.created_at

  first_of-IsFirst :
      (c : CarrierMarginConfig) (cs : List CarrierMarginConfig)
      → is_in_force carrier today c ≡ true
      → IsFirst (first_of seller tier carrier today c cs) (c ∷ cs)
  first_of-IsFirst c [] there = (there, ((λ _. ground arith), tt))
  first_of-IsFirst c (x ∷ xs) there =
      elim (Bool-cases (is_in_force carrier today x && comes_before seller tier x c)) [
        | inl better ↦
            let (valid, sooner) =
              and_parts (is_in_force carrier today x) (comes_before seller tier x c) better in
            let next : first_of seller tier carrier today c (x ∷ xs)
                ≡ first_of seller tier carrier today x xs =
              rw better refl in
            let (force, (first, rest)) = first_of-IsFirst x xs valid in
            subst (λ r. IsFirst r (c ∷ x ∷ xs)) (sym next)
              (
                force,
                (
                  (λ _.
                      comes_before_trans c x (first_of seller tier carrier today x xs)
                        (comes_before_asym x c sooner) (first valid)),
                  (first, rest),
                ),
              )
        | inr worse ↦
            let same : first_of seller tier carrier today c (x ∷ xs)
                ≡ first_of seller tier carrier today c xs =
              rw worse refl in
            let (force, (first, rest)) = first_of-IsFirst c xs there in
            subst (λ r. IsFirst r (c ∷ x ∷ xs)) (sym same)
              (
                force,
                (
                  first,
                  (
                    (λ valid.
                        comes_before_trans x c (first_of seller tier carrier today c xs)
                          (and_false (is_in_force carrier today x) (comes_before seller tier x c)
                            worse valid)
                          (first there)),
                    rest,
                  ),
                ),
              )
      ]

  -- A margin that is found is in force, and no margin in force comes before it, by the rank of the
  -- seller and the tier and then by age; and one is found wherever one is in force.
  pub resolve_margin-IsFirst :
      (cs : List CarrierMarginConfig)
      → ((resolve_margin carrier seller tier today cs ≡ none)
          × All (λ x. is_in_force carrier today x ≡ false) cs)
        ⊎ ((r : CarrierMarginConfig) × (resolve_margin carrier seller tier today cs ≡ some r)
            × IsFirst r cs)
  unfolding resolve_margin
  resolve_margin-IsFirst [] = inl (refl, tt)
  resolve_margin-IsFirst (c ∷ cs) = elim (Bool-cases (is_in_force carrier today c)) [
    | inl there ↦
        inr (first_of seller tier carrier today c cs, rw there refl, first_of-IsFirst c cs there)
    | inr out ↦ elim (resolve_margin-IsFirst cs) [
      | inl (nothing, none_there) ↦ inl (rw out nothing, (out, none_there))
      | inr (r, found, (force, rest)) ↦
          inr (r, rw out found, (force, ((λ valid. absurd (ground (arith, out, valid))), rest)))
    ]
  ]

  first_of-stays :
      (d : CarrierMarginConfig) (cs : List CarrierMarginConfig)
      → All (λ x. (is_in_force carrier today x && comes_before seller tier x d) ≡ false) cs
      → first_of seller tier carrier today d cs ≡ d
  first_of-stays d [] h = refl
  first_of-stays d (x ∷ xs) (worse, rest) = rw worse (first_of-stays d xs rest)

  resolve_margin-foreign :
      (d : CarrierMarginConfig) (other : ℕ) (cs : List CarrierMarginConfig)
      → is_in_force carrier today d ≡ true
      → d.seller_id ≡ some other
      → other ≢ seller
      → d.seller_tier ≡ all_tiers
      → All
          (λ x.
            is_in_force carrier today x ≡ true
            → (is_seller seller x.seller_id ≡ false)
              × (same_tier x.seller_tier tier ≡ false)
              × (x.created_at ≤ d.created_at))
          cs
      → resolve_margin carrier seller tier today (d ∷ cs) ≡ some d
  unfolding resolve_margin
  resolve_margin-foreign d other cs there owner foreign all rest =
      rw there (ap some (first_of-stays d cs (map-All _ _ cs worse rest)))
    where
      worse :
          (x : CarrierMarginConfig)
          → (is_in_force carrier today x ≡ true
              → (is_seller seller x.seller_id ≡ false)
                × (same_tier x.seller_tier tier ≡ false)
                × (x.created_at ≤ d.created_at))
          → (is_in_force carrier today x && comes_before seller tier x d) ≡ false
      worse x h = elim (Bool-cases (is_in_force carrier today x)) [
        | inr out ↦ ground (arith, out)
        | inl force ↦
            let (not_own, not_tier, older) = h force in
            let mine : is_seller seller d.seller_id ≡ false = ground (arith, owner, foreign) in
            ground (arith, mine, not_own, not_tier, older, all)
      ]

-- A margin that is created for one seller, with no tier, from the day of its creation and with no end,
-- applies to every other seller on that day and on each later one, as long as the rows are those that
-- the creation leaves, if of the margins of the carrier that are in force on the day none is the
-- seller's own or of its tier and none is newer: also over an older one that is meant for all.
pub create_config-foreign :
    (now today day seller other : ℕ) (tier : SellerTier) (d : MarginData) (m : MarginType)
    (t : MarginTable)
    → today ≤ day
    → d.margin_type ≡ some m
    → d.seller_id ≡ some other
    → other ≢ seller
    → d.seller_tier ≡ none
    → d.effective_from ≡ none
    → d.effective_until ≡ none
    → All
        (λ x.
          is_in_force d.carrier_id day x ≡ true
          → (is_seller seller x.seller_id ≡ false)
            × (same_tier x.seller_tier tier ≡ false)
            × (x.created_at ≤ now))
        t.configs
    → (c : CarrierMarginConfig) × (resolve_margin d.carrier_id seller tier day
          (create_config now today d t).1.configs
        ≡ some c)
      × (c.id ≡ t.next_id)
      × (c.seller_id ≡ some other)
unfolding create_config
create_config-foreign now today day seller other tier d m t later kind owner foreign no_tier from
      until rest =
    let c : CarrierMarginConfig = record {
      id = t.next_id;
      carrier_id = d.carrier_id;
      seller_id = d.seller_id;
      seller_tier = or_else d.seller_tier all_tiers;
      margin_type = m;
      margin_value = d.margin_value;
      effective_from = or_else d.effective_from today;
      effective_until = d.effective_until;
      created_at = now;
    } in
    let made : (create_config now today d t).1.configs ≡ c ∷ t.configs = ground (arith, kind) in
    let there : is_in_force d.carrier_id day c ≡ true =
      ground (arith, from, until, later, ==_iff d.carrier_id d.carrier_id) in
    (
      c,
      ap (resolve_margin d.carrier_id seller tier day) made
          ∙ resolve_margin-foreign d.carrier_id seller tier day c other t.configs there owner
              foreign (ap (λ o. or_else o all_tiers) no_tier) rest,
      refl,
      owner,
    )
