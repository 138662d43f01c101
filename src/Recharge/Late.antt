-- ===== src/Recharge/Late.antt =====
-- A verification that reads an order before a webhook pays it in, and marks it afterwards.
use saas_frontend.Base.{ℕ, ◌+◌, ◌≡◌, refl, ap, false, some, Result, arith, ==_iff, inl, inr}
use saas_frontend.Base.Int.{ℤ, pos, ◌≤ℤ◌}
use saas_frontend.Base.Text.{Text}
use saas_frontend.Wallet.{WalletRow, Book, recharge, credit, credit_type, post, wallet_of}
use saas_frontend.Wallet
use saas_frontend.Wallet.Outcome.{credit_cases}
use saas_frontend.Wallet.Refund.{credit-ok, wallet_of-Posted}
use saas_frontend.Recharge.Defs.{
  RechargeOrder, success, failed, is_success, is_failed, Till, order_by_id, pay_in, settle,
  mark_failed,
}
use saas_frontend.Recharge.Once.{times_paid, same_order}

abbrev pub HasWallet : ℕ → Till → Type 0
HasWallet tenant t = (w : WalletRow) × (wallet_of tenant t.book ≡ some w)

-- What a payment leaves: the wallet, the order with its new status, and one more entry for it.
abbrev pub PaysIn : ℕ → Text → ℕ → RechargeOrder → Till → Till → Type 0
PaysIn tenant payment now o t t' =
    HasWallet tenant t'
    × (order_by_id o.id t'
        ≡ some (record o {
          gateway_payment_id = some payment;
          status = success;
          completed_at = some now;
        }))
    × (times_paid o.id t' ≡ times_paid o.id t + 1)

pay_in-PaysIn :
    (tenant user : ℕ) (payment : Text) (now : ℕ) (o : RechargeOrder) (t : Till)
    → order_by_id o.id t ≡ some o
    → pos 1 ≤ℤ o.amount
    → HasWallet tenant t
    → PaysIn tenant payment now o t (pay_in tenant user payment now o t).1
pay_in-PaysIn tenant user payment now o t found positive (w, has) =
    elim (credit_cases tenant recharge (some o.id) (some user) t.book (some o.amount)) [
      | inr (e, refused) ↦ absurd (
          cc (
            ap (λ (z : Result Wallet.Error ℤ × Book). z.0) refused,
            credit-ok tenant o.amount recharge (some o.id) (some user) t.book w has positive,
          ))
      | inl p ↦
          let r0 = ap (λ (z : Result Wallet.Error ℤ × Book). z.0) p.result in
          let r1 = ap (λ (z : Result Wallet.Error ℤ × Book). z.1.ledger) p.result in
          (
            (
              record p.wallet { balance = p.new_balance },
              rw (pay_in, r0) (wallet_of-Posted t.book p),
            ),
            rw (pay_in, r0)
                (same_order o.id
                  (λ r. record r {
                    gateway_payment_id = some payment;
                    status = success;
                    completed_at = some now;
                  })
                  o
                  (record t {
                    book =
                        (credit tenant (some o.amount) recharge (some o.id) (some user) t.book).1;
                  })
                  (λ y. refl) found),
            rw (pay_in, r0, r1) (counted o.id t p.wallet p.amt p.new_balance),
          )
    ]
  where
    counted :
        (id : ℕ) (t : Till) (w : WalletRow) (amt new : ℤ)
        → times_paid id
            (record t { book = post credit_type w amt new recharge (some id) (some user) t.book })
          ≡ times_paid id t + 1
    counted id t w amt new = unfold post in ground (arith, ==_iff id id)

settle_opens :
    (tenant user : ℕ) (payment : Text) (now : ℕ) (o : RechargeOrder) (t : Till)
    → order_by_id o.id t ≡ some o
    → is_success o.status ≡ false
    → settle o.id tenant user payment now t ≡ pay_in tenant user payment now o t
unfolding settle
settle_opens tenant user payment now o t found unpaid = rw (settle, found, unpaid) refl

mark_failed-keeps :
    (tenant : ℕ) (o now : RechargeOrder) (t : Till)
    → is_failed o.status ≡ false
    → now.id ≡ o.id
    → order_by_id now.id t ≡ some now
    → HasWallet tenant t
    → HasWallet tenant (mark_failed o t)
      × (order_by_id now.id (mark_failed o t) ≡ some (record now { status = failed }))
      × (times_paid now.id (mark_failed o t) ≡ times_paid now.id t)
unfolding mark_failed
mark_failed-keeps tenant o now t unmarked same found has =
    rw (mark_failed, unmarked, ← same)
      (has, same_order now.id (λ r. record r { status = failed }) now t (λ y. refl) found, refl)

-- A verification with a bad signature that read an order before it was paid, with a status that was
-- not yet `failed`, and marks it as failed after the payment, lets the next confirmation pay it in again: two entries for one order.
pub late_failure-pays_twice :
    (tenant user user' : ℕ) (payment payment' : Text) (now now' : ℕ) (o : RechargeOrder) (t : Till)
    → order_by_id o.id t ≡ some o
    → is_success o.status ≡ false
    → is_failed o.status ≡ false
    → pos 1 ≤ℤ o.amount
    → HasWallet tenant t
    → times_paid o.id
        (settle o.id tenant user' payment' now'
          (mark_failed o (settle o.id tenant user payment now t).1)).1
      ≡ times_paid o.id t + 2
late_failure-pays_twice tenant user user' payment payment' now now' o t found unpaid unmarked
      positive has =
    let t1 : Till = (settle o.id tenant user payment now t).1 in
    let first : PaysIn tenant payment now o t t1 =
      rw (settle_opens tenant user payment now o t found unpaid)
        (pay_in-PaysIn tenant user payment now o t found positive has) in
    let paid : RechargeOrder = record o {
      gateway_payment_id = some payment;
      status = success;
      completed_at = some now;
    } in
    let marked = mark_failed-keeps tenant o paid t1 unmarked refl first.1 first.0 in
    let again : RechargeOrder = record paid { status = failed } in
    let t2 : Till = mark_failed o t1 in
    let second : PaysIn tenant payment' now' again t2
        (settle o.id tenant user' payment' now' t2).1 =
      rw (settle_opens tenant user' payment' now' again t2 marked.1 refl)
        (pay_in-PaysIn tenant user' payment' now' again t2 marked.1 positive marked.0) in
    omega (arith, first.2, marked.2, second.2)
