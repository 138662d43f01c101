-- ===== src/Subscribing/Suspends.antt =====
-- A subscription whose price the wallet does not cover is dunned and suspended in the end.
use saas_frontend.Base.{
  ok, ℕ, ◌+◌, ◌*◌, ◌≤◌, ◌<◌, ◌≡◌, refl, ap, ◌∙◌, true, false, Option, none, some, List, [], ◌∷◌,
  ◌++◌, Result, err, arith, ◌==◌, ==_iff, leb, find_one, update_where, find_one-update_where, inl,
  inr,
}
use saas_frontend.Base.Int.{ℤ, pos, ◌≤ℤ◌, ◌+ℤ◌, int_laws, +ℤ_parts}
use saas_frontend.Base.Text.{Text}
use saas_frontend.Wallet
use saas_frontend.Wallet.{WalletRow, Book, wallet_of, debit, subscription_debit}
use saas_frontend.Wallet.Outcome.{debit_cases}
use saas_frontend.Wallet.Refund.{debit-ok_iff}
use saas_frontend.Plan.{Subscription, active, grace_period, suspended}
use saas_frontend.Subscribing.Defs.{Accounts, Clock, charge, price_for, seconds_a_day}
use saas_frontend.Subscribing.Renewing.{renew_subscription, renew, dun, plan_to_charge}

abbrev pub subscription_by_id : ℕ → Accounts → Option Subscription
subscription_by_id id a = find_one (λ s. s.id == id) a.plan.subscriptions

-- A subscription to be renewed, of a tenant whose wallet holds less than the price.
pub record IsUnpaid (id : ℕ) (sub : Subscription) (a : Accounts) : Type 0 where
  pub found : subscription_by_id id a ≡ some sub
  pub renews : sub.auto_renew ≡ true
  pub wallet : WalletRow
  pub has_wallet : wallet_of sub.tenant_id a.book ≡ some wallet
  pub short : wallet.balance +ℤ pos 1 ≤ℤ pos (price_for sub.billing_cycle (plan_to_charge sub))
  pub not_below : pos 0 ≤ℤ wallet.balance

-- The debit fails, and leaves the books alone.
charge_fails :
    (tenant amount plan : ℕ) (by : Option ℕ) (b : Book) (w : WalletRow)
    → wallet_of tenant b ≡ some w
    → w.balance +ℤ pos 1 ≤ℤ pos amount
    → pos 0 ≤ℤ w.balance
    → (e : Wallet.Error) × (charge tenant amount plan by b ≡ (err e, b))
charge_fails tenant amount plan by b w found short nonneg =
    let positive : (amount == 0) ≡ false = ground (arith, +ℤ_parts w.balance (pos 1)) in
    elim (debit_cases tenant subscription_debit (some plan) by b (some (pos amount))) [
      | inr (e, refused) ↦ (e, rw positive refused)
      | inl p ↦
          let paid =
            (debit-ok_iff tenant (pos amount) p.new_balance subscription_debit (some plan) by b w
                found).0
              (ap (λ (z : Result Wallet.Error ℤ × Book). z.0) p.result) in
          absurd (omega (int_laws, short, paid.1))
    ]

-- A renewal of an unpaid subscription is what follows a failed debit, and nothing else.
renew-unpaid :
    (clock : Clock) (state : Option Text) (id : ℕ) (sub : Subscription) (a : Accounts)
    → IsUnpaid id sub a
    → (renew_subscription clock state id a).1 ≡ dun sub.status clock sub a
unfolding renew_subscription
renew-unpaid clock state id sub a u =
    let plan = plan_to_charge sub in
    let (e, failed) =
      charge_fails sub.tenant_id (price_for sub.billing_cycle plan) plan.id none a.book u.wallet
        u.has_wallet u.short u.not_below in
    let dunned : renew clock state sub a ≡ (ok tt, dun sub.status clock sub a) =
      rw (renew, ap (λ (z : Result Wallet.Error ℤ × Book). z.0) failed)
        (ap (λ (b : Book). (ok tt, dun sub.status clock sub (record a { book = b })))
          (ap (λ (z : Result Wallet.Error ℤ × Book). z.1) failed)) in
    ground (arith, u.found, u.renews, dunned)

-- The row of a subscription after an update that keeps its id.
pub update_found :
    (id : ℕ) (sub : Subscription) (f : Subscription → Subscription) (rows : List Subscription)
    → ((y : Subscription) → (f y).id ≡ y.id)
    → find_one (λ (s : Subscription). s.id == id) rows ≡ some sub
    → find_one (λ (s : Subscription). s.id == id) (update_where (λ s. s.id == sub.id) f rows)
      ≡ some (f sub)
update_found id sub f rows keep found =
    find_one-update_where (λ (s : Subscription). s.id == id) (λ (s : Subscription). s.id == sub.id)
      f rows {x = sub} (λ y. ap (λ n. n == id) (keep y)) found
    ∙ ground (arith, ==_iff sub.id sub.id)

abbrev pub grace_end : Clock → ℕ
grace_end clock = clock.now + clock.grace_days * seconds_a_day

abbrev pub in_grace : ℕ → Subscription → Subscription
in_grace end sub = record sub { status = grace_period; grace_period_ends_at = some end }

-- The first failure opens the grace period, and takes nothing from the wallet.
first_failure :
    (clock : Clock) (state : Option Text) (id : ℕ) (sub : Subscription) (a : Accounts)
    → IsUnpaid id sub a
    → sub.status ≡ active
    → IsUnpaid id (in_grace (grace_end clock) sub) (renew_subscription clock state id a).1
first_failure clock state id sub a u is_active =
    rw (renew-unpaid clock state id sub a u, is_active)
      (record {
        found = update_found id sub _ a.plan.subscriptions (λ y. refl) u.found;
        renews = u.renews;
        wallet = u.wallet;
        has_wallet = u.has_wallet;
        short = u.short;
        not_below = u.not_below;
      })

-- A failure within the grace period changes nothing.
later_failure :
    (clock : Clock) (state : Option Text) (id end : ℕ) (sub : Subscription) (a : Accounts)
    → IsUnpaid id (in_grace end sub) a
    → clock.now < end
    → (renew_subscription clock state id a).1 ≡ a
later_failure clock state id end sub a u within =
    renew-unpaid clock state id (in_grace end sub) a u ∙ ground arith

-- A failure after it suspends.
last_failure :
    (clock : Clock) (state : Option Text) (id end : ℕ) (sub : Subscription) (a : Accounts)
    → IsUnpaid id (in_grace end sub) a
    → end ≤ clock.now
    → let a' = (renew_subscription clock state id a).1 in
      (subscription_by_id id a' ≡ some (record (in_grace end sub) { status = suspended }))
      × (a'.book ≡ a.book)
last_failure clock state id end sub a u over =
    let test : leb end clock.now ≡ true = ground arith in
    rw (renew-unpaid clock state id (in_grace end sub) a u, test)
      (
        update_found id (in_grace end sub) (λ s. record s { status = suspended })
            a.plan.subscriptions (λ y. refl) u.found,
        refl,
      )

-- The renewals of a subscription, one after another.
abbrev pub renewals : Option Text → ℕ → List Clock → Accounts → Accounts
renewals state id [] a = a
renewals state id (clock ∷ clocks) a =
    renewals state id clocks (renew_subscription clock state id a).1

abbrev pub AllBefore : ℕ → List Clock → Type 0
AllBefore end [] = Unit
AllBefore end (clock ∷ clocks) = (clock.now < end) × AllBefore end clocks

waiting :
    (state : Option Text) (id end : ℕ) (sub : Subscription) (clocks : List Clock) (last : Clock)
    (a : Accounts)
    → IsUnpaid id (in_grace end sub) a
    → AllBefore end clocks
    → end ≤ last.now
    → let a' = renewals state id (clocks ++ last ∷ []) a in
      (subscription_by_id id a' ≡ some (record (in_grace end sub) { status = suspended }))
      × (a'.book ≡ a.book)
waiting state id end sub [] last a u before over = last_failure last state id end sub a u over
waiting state id end sub (clock ∷ clocks) last a u before over =
    let rest = λ (x : Accounts). renewals state id (clocks ++ last ∷ []) x in
    let quiet = later_failure clock state id end sub a u before.0 in
    let (found, book) = waiting state id end sub clocks last a u before.1 over in
    (ap (λ x. subscription_by_id id (rest x)) quiet ∙ found, ap (λ x. (rest x).book) quiet ∙ book)

-- Where the wallet does not cover the price, the first renewal opens a grace period, and the first
-- one that runs after its end suspends the subscription, however many have run in between. The
-- wallets and their ledger are as they were.
pub renewals-suspend :
    (state : Option Text) (id : ℕ) (sub : Subscription) (first last : Clock) (clocks : List Clock)
    (a : Accounts)
    → IsUnpaid id sub a
    → sub.status ≡ active
    → AllBefore (grace_end first) clocks
    → grace_end first ≤ last.now
    → let a' = renewals state id (first ∷ clocks ++ last ∷ []) a in
      (subscription_by_id id a'
        ≡ some (record (in_grace (grace_end first) sub) { status = suspended }))
      × (a'.book ≡ a.book)
renewals-suspend state id sub first last clocks a u is_active before over =
    let (found, book) =
      waiting state id (grace_end first) sub clocks last _
        (first_failure first state id sub a u is_active) before over in
    (found, book ∙ rw (renew-unpaid first state id sub a u, is_active) refl)
