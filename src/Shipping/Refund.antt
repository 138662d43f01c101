-- ===== src/Shipping/Refund.antt =====
-- What a cancellation that succeeds has found and done, and that it undoes a booking.
use saas_frontend.Base.{
  ℕ, ◌≡◌, ◌↔◌, refl, sym, ap, ap₂, ◌∙◌, true, some, List, Result, ok, Result-cases, Option-cases,
  arith, inl, inr, update_where, find_one, ◌==◌, contains,
}
use saas_frontend.Base.Int.{ℤ}
use saas_frontend.Status.Shipments.{
  ShipmentStatus, created, awb_generated, pickup_scheduled, picked_up, cancelled, same_status, Next,
  cancel_created, cancel_booked, cancel_scheduled,
}
use saas_frontend.Wallet
use saas_frontend.Wallet.{shipment_refund, shipment_debit, wallet_of, WalletRow}
use saas_frontend.Shipping.Defs.{Db, Order, World, Shipment}
use saas_frontend.Shipping.Session.{Session}
use saas_frontend.Shipping.Cancelling.{
  shipment_of, cancellable_statuses, find_cancellable, cancel_with_courier, record_cancellation,
  reopen_order, cancel_shipment,
}

-- The statuses from which the service cancels are exactly those from which a shipment's life has a
-- step to `cancelled`.
pub cancellable_iff :
    (s : ShipmentStatus) → (contains same_status cancellable_statuses s ≡ true) ↔ Next s cancelled
cancellable_iff created = (λ h. cancel_created, λ n. refl)
cancellable_iff awb_generated = (λ h. cancel_booked, λ n. refl)
cancellable_iff pickup_scheduled = (λ h. cancel_scheduled, λ n. refl)
cancellable_iff picked_up = (λ h. absurd (cc), λ n. elim n [ ])
cancellable_iff _ = (λ h. absurd (cc), λ n. elim n [ ])

-- The refund of a cancellation, on the book of a session.
abbrev pub credit_of : ℕ → ℕ → Shipment → Session → Result Wallet.Error ℤ × Wallet.Book
credit_of tenant user sh s =
    Wallet.credit tenant (some sh.selected_rate) shipment_refund (some sh.id) (some user)
      (record s.view.book { effects = s.wallet_effects })

module _ (world : World) (tenant user : ℕ) (sh : Shipment) (s : Session) where
  record_cancellation-ok :
      (record_cancellation world tenant user sh s).0 ≡ ok tt
      → let v = (record_cancellation world tenant user sh s).1.view in
        (v.shipments
          ≡ update_where
              (λ x. x.id == sh.id)
              (λ x. record x { status = cancelled })
              s.view.shipments)
        × (v.orders
            ≡ (reopen_order user (find_one (λ o. o.id == sh.order_id) s.view.orders) s.view).orders)
        × (v.book ≡ record (credit_of tenant user sh s).1 { effects = s.view.book.effects })
        × ((new : ℤ) × ((credit_of tenant user sh s).0 ≡ ok new))
  unfolding record_cancellation
  record_cancellation-ok h = elim (Result-cases (credit_of tenant user sh s).0) [
    | inr (e, broke) ↦ absurd (ground arith)
    | inl (new, paid) ↦
        elim (Option-cases (find_one (λ (o : Order). o.id == sh.order_id) s.view.orders)) [
          | inl gone ↦ (ground arith, ground arith, ground arith, (new, paid))
          | inr (o, there) ↦ (ground arith, ground arith, ground arith, (new, paid))
        ]
  ]

  cancel_with_courier-keeps :
      ((cancel_with_courier world sh s).1.view ≡ s.view)
      × ((cancel_with_courier world sh s).1.wallet_effects ≡ s.wallet_effects)
  unfolding cancel_with_courier
  cancel_with_courier-keeps = (ground arith, ground arith)

find_cancellable-ok :
    (world : World) (id tenant : ℕ) (s : Session) (sh : Shipment)
    → (find_cancellable world id tenant s).0 ≡ ok sh
    → (shipment_of id tenant s.view ≡ some sh)
      × (contains same_status cancellable_statuses sh.status ≡ true)
      × ((find_cancellable world id tenant s).1 ≡ s)
unfolding find_cancellable
find_cancellable-ok world id tenant s sh h = (ground arith, ground arith, ground arith)

pub record Cancelled (id tenant user : ℕ) (before after : Db) : Type 0 where
  pub shipment : Shipment
  pub found : shipment_of id tenant before ≡ some shipment
  pub cancellable : Next shipment.status cancelled
  pub row_cancelled :
      after.shipments
      ≡ update_where
          (λ x. x.id == shipment.id)
          (λ x. record x { status = cancelled })
          before.shipments
  pub order_reopened :
      after.orders
      ≡ (reopen_order user (find_one (λ o. o.id == shipment.order_id) before.orders) before).orders
  pub new_balance : ℤ
  pub effects : List Wallet.Effect
  pub refunded :
      (Wallet.credit tenant
        (some shipment.selected_rate)
        shipment_refund
        (some shipment.id)
        (some user)
        (record before.book { effects = effects })).0
      ≡ ok new_balance
  pub credited :
      after.book
      ≡ record (Wallet.credit tenant
          (some shipment.selected_rate)
          shipment_refund
          (some shipment.id)
          (some user)
          (record before.book { effects = effects })).1 { effects = before.book.effects }

module _ (world : World) (id tenant user : ℕ) (s : Session) where
  s₀ : Session
  s₀ = record s { view = s.committed }

  stages :
      (cancel_shipment world id tenant user s).0 ≡ ok tt
      → (sh : Shipment) × ((find_cancellable world id tenant s₀).0 ≡ ok sh)
        × ((record_cancellation world tenant user sh
              (cancel_with_courier world sh (find_cancellable world id tenant s₀).1).1).0
            ≡ ok tt)
        × ((cancel_shipment world id tenant user s).1.committed
            ≡ (record_cancellation world tenant user sh
                (cancel_with_courier world sh (find_cancellable world id tenant s₀).1).1).1.view)
  unfolding cancel_shipment s₀
  stages h = elim (Result-cases (find_cancellable world id tenant s₀).0) [
    | inr (e, x) ↦ absurd (ground arith)
    | inl (sh, found) ↦
        elim (Result-cases
          (cancel_with_courier world sh (find_cancellable world id tenant s₀).1).0) [
            | inr (e, x) ↦ absurd (ground arith)
            | inl (d, answered) ↦ (sh, found, ground arith, ground arith)
          ]
  ]

  pub cancel_shipment-Cancelled :
      (cancel_shipment world id tenant user s).0 ≡ ok tt
      → Cancelled id tenant user s.committed (cancel_shipment world id tenant user s).1.committed
  unfolding s₀
  cancel_shipment-Cancelled h =
      let (sh, looked, recorded, committed) = stages h in
      let f = find_cancellable-ok world id tenant s₀ sh looked in
      let s1 : Session = (find_cancellable world id tenant s₀).1 in
      let s2 : Session = (cancel_with_courier world sh s1).1 in
      let c = cancel_with_courier-keeps world tenant user sh s1 in
      let r = record_cancellation-ok world tenant user sh s2 recorded in
      let view : s2.view ≡ s.committed = c.0 ∙ ap (λ (x : Session). x.view) f.2 in
      let effects : s2.wallet_effects ≡ s.wallet_effects =
        c.1 ∙ ap (λ (x : Session). x.wallet_effects) f.2 in
      let paid : credit_of tenant user sh s2 ≡ credit_of tenant user sh s₀ =
        ap₂
          (λ (v : Db) (es : List Wallet.Effect).
            Wallet.credit tenant (some sh.selected_rate) shipment_refund (some sh.id) (some user)
              (record v.book { effects = es }))
          view effects in
      record {
        shipment = sh;
        found = f.0;
        cancellable = (cancellable_iff sh.status).0 f.1;
        row_cancelled =
            ap (λ (v : Db). v.shipments) committed
            ∙ r.0
            ∙ ap
                (λ (v : Db).
                  update_where (λ (x : Shipment). x.id == sh.id)
                    (λ x. record x { status = cancelled }) v.shipments)
                view;
        order_reopened =
            ap (λ (v : Db). v.orders) committed
            ∙ r.1
            ∙ ap
                (λ (v : Db).
                  (reopen_order user (find_one (λ o. o.id == sh.order_id) v.orders) v).orders)
                view;
        new_balance = r.3.0;
        effects = s.wallet_effects;
        refunded = sym (ap (λ (z : Result Wallet.Error ℤ × Wallet.Book). z.0) paid) ∙ r.3.1;
        credited =
            ap (λ (v : Db). v.book) committed
            ∙ r.2
            ∙ ap₂ (λ (b : Wallet.Book) (v : Db). record b { effects = v.book.effects })
                (ap (λ (z : Result Wallet.Error ℤ × Wallet.Book). z.1) paid) view;
      }
