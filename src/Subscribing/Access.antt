-- ===== src/Subscribing/Access.antt =====
-- Which couriers a tenant may use after its access was brought in line with a tier.
use saas_frontend.Base.{
  ℕ, ◌≡◌, refl, ap, ◌∙◌, find_one, count_where, inl, inr, Bool, true, false, ◌&&◌, some, List, [],
  ◌∷◌, arith, ◌==◌, ==_iff, if◌then◌else◌, Bool-cases,
}
use saas_frontend.Plan.{Tier}
use saas_frontend.Subscribing.Defs.{
  Courier, CourierAccess, tier_or_basic, is_eligible, has_access, grant, revoke,
  sync_courier_access,
}

grant-same :
    (tenant c : ℕ) (rows : List CourierAccess) → has_access tenant c (grant tenant c rows) ≡ true
grant-same tenant c rows = ground arith

revoke-same :
    (tenant c : ℕ) (rows : List CourierAccess) → has_access tenant c (revoke tenant c rows) ≡ false
revoke-same tenant c [] = refl
revoke-same tenant c (a ∷ rows) = ground (arith, revoke-same tenant c rows)

grant-other :
    (tenant tenant' c c' : ℕ) (rows : List CourierAccess)
    → ((tenant == tenant') && (c == c')) ≡ false
    → has_access tenant' c' (grant tenant c rows) ≡ has_access tenant' c' rows
grant-other tenant tenant' c c' rows apart = ground arith

revoke-other :
    (tenant tenant' c c' : ℕ) (rows : List CourierAccess)
    → ((tenant == tenant') && (c == c')) ≡ false
    → has_access tenant' c' (revoke tenant c rows) ≡ has_access tenant' c' rows
revoke-other tenant tenant' c c' [] apart = refl
revoke-other tenant tenant' c c' (a ∷ rows) apart =
    ground (arith, revoke-other tenant tenant' c c' rows apart)

-- What a list of couriers says of one: the last entry of that id decides, and couriers that are not
-- listed keep what they have.
abbrev pub decides : ℕ → Tier → List Courier → Bool → Bool
decides c tier [] had = had
decides c tier (x ∷ xs) had =
    decides c tier xs (if x.id == c then is_eligible tier (tier_or_basic x.min_plan_tier) else had)

one_courier :
    (tenant c : ℕ) (tier : Tier) (x : Courier) (rows : List CourierAccess)
    → has_access tenant c (
        if is_eligible tier (tier_or_basic x.min_plan_tier)
        then grant tenant x.id rows
        else revoke tenant x.id rows)
      ≡ (if x.id == c
          then is_eligible tier (tier_or_basic x.min_plan_tier)
          else has_access tenant c rows)
one_courier tenant c tier x rows = elim (Bool-cases (x.id == c)) [
  | inl hit ↦
      let e : x.id ≡ c = (==_iff x.id c).0 hit in
      rw hit (elim (Bool-cases (is_eligible tier (tier_or_basic x.min_plan_tier))) [
        | inl yes_ ↦ rw (yes_, e) (grant-same tenant c rows)
        | inr no_ ↦ rw (no_, e) (revoke-same tenant c rows)
      ])
  | inr miss ↦
      let apart : ((tenant == tenant) && (x.id == c)) ≡ false = ground arith in
      rw miss (elim (Bool-cases (is_eligible tier (tier_or_basic x.min_plan_tier))) [
        | inl yes_ ↦ rw yes_ (grant-other tenant tenant x.id c rows apart)
        | inr no_ ↦ rw no_ (revoke-other tenant tenant x.id c rows apart)
      ])
]

sync-decides :
    (tenant c : ℕ) (tier : Tier) (cs : List Courier) (rows : List CourierAccess)
    → has_access tenant c (sync_courier_access tenant tier cs rows)
      ≡ decides c tier cs (has_access tenant c rows)
unfolding sync_courier_access
sync-decides tenant c tier [] rows = refl
sync-decides tenant c tier (x ∷ xs) rows =
    sync-decides tenant c tier xs _ ∙ ap (decides c tier xs) (one_courier tenant c tier x rows)

decides_absent :
    (c : ℕ) (tier : Tier) (cs : List Courier) (had : Bool)
    → count_where (λ x. x.id == c) cs ≡ 0
    → decides c tier cs had ≡ had
decides_absent c tier [] had h = refl
decides_absent c tier (x ∷ xs) had h = ground (arith, decides_absent c tier xs had)

decides_once :
    (c : ℕ) (tier : Tier) (cs : List Courier) (had : Bool) (x : Courier)
    → find_one (λ x. x.id == c) cs ≡ some x
    → count_where (λ x. x.id == c) cs ≡ 1
    → decides c tier cs had ≡ is_eligible tier (tier_or_basic x.min_plan_tier)
decides_once c tier [] had x found once = cc
decides_once c tier (y ∷ ys) had x found once = elim (Bool-cases (y.id == c)) [
  | inl hit ↦
      ground (arith, decides_absent c tier ys (is_eligible tier (tier_or_basic y.min_plan_tier)))
  | inr miss ↦ ground (arith, decides_once c tier ys had x)
]

-- After a sync the tenant has access to a courier that stands once in the table exactly if the tier
-- reaches what the courier wants, whatever access it had before.
pub sync_courier_access_lem :
    (tenant c : ℕ) (tier : Tier) (cs : List Courier) (rows : List CourierAccess) (x : Courier)
    → find_one (λ x. x.id == c) cs ≡ some x
    → count_where (λ x. x.id == c) cs ≡ 1
    → has_access tenant c (sync_courier_access tenant tier cs rows)
      ≡ is_eligible tier (tier_or_basic x.min_plan_tier)
sync_courier_access_lem tenant c tier cs rows x found once =
    sync-decides tenant c tier cs rows ∙ decides_once c tier cs _ x found once
