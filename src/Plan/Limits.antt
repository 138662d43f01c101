-- ===== src/Plan/Limits.antt =====
-- What the check of a limit lets through, and that bookings never pass the plan's limit.
use saas_frontend.Base.{
  ℕ, zero, suc, ◌+◌, ◌≤◌, ◌<◌, ◌≡◌, refl, ◌↔◌, inl, inr, false, Option, none, some, ok, Action,
  ◌>>◌, modify, find_one-update_where, arith, Option-cases, Result-cases, >>=-ok, >>=-err,
  find_one-holds,
}
use saas_frontend.Plan.Defs.{
  Subscription, Tables, Error, check_limit, increment_usage, max_orders_per_month, increment,
  subscription_of, count_of, usage_of, is_suspended, is_period,
}

-- The orders of the tenant's current period; a period with no row has none yet.
abbrev pub orders_used : ℕ → Subscription → Tables → ℕ
orders_used tenant sub t = count_of (usage_of tenant sub.current_period_start t)

abbrev pub Below : Option ℕ → ℕ → Type 0
Below none n = Unit
Below (some limit) n = n < limit

-- An order passes the check exactly when the tenant has a subscription that is not suspended and the
-- period's orders are below the plan's limit, if it has one.
pub check_limit-ok_iff :
    (tenant : ℕ) (t : Tables) (sub : Subscription)
    → subscription_of tenant t ≡ some sub
    → ((check_limit tenant max_orders_per_month t).0 ≡ ok tt) ↔ (
        (is_suspended sub.status ≡ false)
        × Below sub.plan.max_orders_per_month (orders_used tenant sub t))
unfolding check_limit
check_limit-ok_iff tenant t sub found =
    elim (Option-cases (usage_of tenant sub.current_period_start t)) [
      | inl first ↦ elim (Option-cases sub.plan.max_orders_per_month) [
        | inl free ↦ (ground arith, λ h. ground arith)
        | inr (l, capped) ↦ (ground arith, λ h. ground arith)
      ]
      | inr (u, counted) ↦ elim (Option-cases sub.plan.max_orders_per_month) [
        | inl free ↦ (ground arith, λ h. ground arith)
        | inr (l, capped) ↦ (ground arith, λ h. ground arith)
      ]
    ]

abbrev pub AtMost : Option ℕ → ℕ → Type 0
AtMost none n = Unit
AtMost (some limit) n = n ≤ limit

-- What a booking does with the plan: the check, and then the count.
abbrev pub book_order : ℕ → Action Tables Error (Unit {0})
book_order tenant = do
  check_limit tenant max_orders_per_month
  modify (increment_usage tenant max_orders_per_month 1)

abbrev pub book_orders : ℕ → ℕ → Tables → Tables
book_orders tenant zero t = t
book_orders tenant (suc n) t = book_orders tenant n (book_order tenant t).1

-- The check may make the row of the period; no count changes by it.
check_limit-keeps :
    (tenant : ℕ) (t : Tables) (sub : Subscription)
    → subscription_of tenant t ≡ some sub
    → ((check_limit tenant max_orders_per_month t).1.subscriptions ≡ t.subscriptions)
      × (orders_used tenant sub (check_limit tenant max_orders_per_month t).1
          ≡ orders_used tenant sub t)
unfolding check_limit
check_limit-keeps tenant t sub found =
    elim (Option-cases (usage_of tenant sub.current_period_start t)) [
      | inl first ↦ (ground arith, ground arith)
      | inr (u, counted) ↦ (ground arith, ground arith)
    ]

increment_usage-adds :
    (tenant : ℕ) (t : Tables) (sub : Subscription)
    → subscription_of tenant t ≡ some sub
    → ((increment_usage tenant max_orders_per_month 1 t).subscriptions ≡ t.subscriptions)
      × (orders_used tenant sub (increment_usage tenant max_orders_per_month 1 t)
          ≡ orders_used tenant sub t + 1)
unfolding increment_usage
increment_usage-adds tenant t sub found =
    elim (Option-cases (usage_of tenant sub.current_period_start t)) [
      | inl first ↦ (ground arith, ground arith)
      | inr (u, counted) ↦ (
        ground arith,
        ground (
          arith,
          find_one-holds (is_period tenant sub.current_period_start) t.tracking counted,
          find_one-update_where (is_period tenant sub.current_period_start)
              (is_period tenant sub.current_period_start) (increment max_orders_per_month 1)
              t.tracking {x = u} (λ y. refl) counted,
        ),
      )
    ]

AtMost-suc : (limit : Option ℕ) (n : ℕ) → Below limit n → AtMost limit (n + 1)
AtMost-suc none n h = tt
AtMost-suc (some l) n h = omega arith

-- One booking keeps the subscription and stays within the limit.
book_order-AtMost :
    (tenant : ℕ) (t : Tables) (sub : Subscription)
    → subscription_of tenant t ≡ some sub
    → AtMost sub.plan.max_orders_per_month (orders_used tenant sub t)
    → (subscription_of tenant (book_order tenant t).1 ≡ some sub)
      × AtMost sub.plan.max_orders_per_month (orders_used tenant sub (book_order tenant t).1)
book_order-AtMost tenant t sub found within =
    let checked = check_limit tenant max_orders_per_month t in
    let keeps = check_limit-keeps tenant t sub found in
    let found' : subscription_of tenant checked.1 ≡ some sub = rw keeps.0 found in
    elim (Result-cases checked.0) [
      | inl (x, passed) ↦
          let adds = increment_usage-adds tenant checked.1 sub found' in
          rw
            (>>=-ok (check_limit tenant max_orders_per_month)
              (λ _. modify (increment_usage tenant max_orders_per_month 1)) t passed)
            (
              rw adds.0 found',
              rw (adds.1, keeps.1)
                  (AtMost-suc _ _ ((check_limit-ok_iff tenant t sub found).0 passed).1),
            )
      | inr (e, refused) ↦
          rw
            (>>=-err (check_limit tenant max_orders_per_month)
              (λ _. modify (increment_usage tenant max_orders_per_month 1)) t refused)
            (found', rw keeps.1 within)
    ]

-- However many orders a tenant tries to book in a period, the number that the plan allows is not
-- passed.
pub book_orders-AtMost :
    (tenant n : ℕ) (t : Tables) (sub : Subscription)
    → subscription_of tenant t ≡ some sub
    → AtMost sub.plan.max_orders_per_month (orders_used tenant sub t)
    → AtMost sub.plan.max_orders_per_month (orders_used tenant sub (book_orders tenant n t))
book_orders-AtMost tenant zero t sub found within = within
book_orders-AtMost tenant (suc n) t sub found within =
    let b = book_order-AtMost tenant t sub found within in
    book_orders-AtMost tenant n (book_order tenant t).1 sub b.0 b.1
