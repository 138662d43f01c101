-- ===== src/Shipping/RoundTrip.antt =====
-- A booking and its cancellation together, and what a second booking of the order meets.
use saas_frontend.Base.{
  ℕ, ◌≡◌, ◌≢◌, refl, sym, ap, ◌∙◌, subst, ◌&&◌, some, ◌∷◌, Result, ok, err, arith, find_one, ◌==◌,
  find_one-update_where, >>=-ok, ◌>>=◌,
}
use saas_frontend.Base.Int.{ℤ}
use saas_frontend.Status.Shipments.{cancelled}
use saas_frontend.Wallet
use saas_frontend.Wallet.{shipment_refund, shipment_debit, wallet_of, WalletRow}
use saas_frontend.Wallet.Refund
use saas_frontend.Shipping.Defs.{
  Db, Error, World, Shipment, BookingData, courier_booked, duplicate_order_id, answered,
}
use saas_frontend.Shipping.Session.{Session, Call, in_transaction}
use saas_frontend.Shipping.Booking.{
  Request, Cleared, clear, book_with_courier, record_shipment, create_shipment, shipment_for_order,
  booking_request,
}
use saas_frontend.Shipping.Cancelling.{shipment_of, cancel_shipment}
use saas_frontend.Shipping.Booked.{Booked, create_shipment-Booked, clear-ok}
use saas_frontend.Shipping.Refund.{cancel_shipment-Cancelled}

module _ (world world' : World) (req : Request) (tenant user user' : ℕ) (s : Session)
    (sh : Shipment) (w : WalletRow) (funded : wallet_of tenant s.committed.book ≡ some w)
    (created : (create_shipment world req tenant user s).0 ≡ ok sh) where
  new_row :
      (before after : Db)
      → Booked world req tenant user before after sh
      → shipment_of sh.id tenant after ≡ some sh
  new_row before after b =
      ap (find_one (λ (x : Shipment). (x.id == sh.id) && (x.tenant_id == tenant))) b.inserted
      ∙ ground (arith, b.of_tenant)

  -- A booking that is cancelled, also by another user of the tenant and with other couriers' replies,
  -- leaves the tenant's wallet as it was before.
  pub book_then_cancel :
      (cancel_shipment world' sh.id tenant user' (create_shipment world req tenant user s).1).0
        ≡ ok tt
      → wallet_of tenant
          (cancel_shipment world' sh.id tenant user'
            (create_shipment world req tenant user s).1).1.committed.book
        ≡ some w
  book_then_cancel cancelled_ok =
      let s1 : Session = (create_shipment world req tenant user s).1 in
      let b = create_shipment-Booked world req tenant user s sh created in
      let c = cancel_shipment-Cancelled world' sh.id tenant user' s1 cancelled_ok in
      let same : c.shipment ≡ sh = cc (c.found, new_row s.committed s1.committed b) in
      let rate : c.shipment.selected_rate ≡ req.quoted_rate =
        ap (λ (x : Shipment). x.selected_rate) same ∙ b.rate_is_quoted in
      let back =
        Refund.refund-debit tenant (some req.quoted_rate) shipment_debit shipment_refund
          (some sh.id) (some user) (some c.shipment.id) (some user')
          (record s.committed.book { effects = b.effects })
          (record s1.committed.book { effects = c.effects }) w b.new_balance funded b.paid
          (ap (λ (x : Wallet.Book). x.wallets) b.debited) in
      ap (wallet_of tenant) c.credited
      ∙ subst
          (λ (q : ℤ).
            wallet_of tenant
              (Wallet.credit tenant (some q) shipment_refund (some c.shipment.id) (some user')
                (record s1.committed.book { effects = c.effects })).1
            ≡ some w)
          (sym rate) back.1

never_booked :
    (world : World) (req : Request) (tenant user : ℕ) (s : Session) (other sh : Shipment)
    → shipment_for_order req.order_id s.committed ≡ some other
    → (create_shipment world req tenant user s).0 ≢ ok sh
never_booked world req tenant user s other sh taken h =
    cc (taken, (create_shipment-Booked world req tenant user s sh h).not_shipped_yet)

-- Once an order was booked and that booking cancelled, the next booking of the order returns no
-- shipment, whatever the request, the world and the user: the cancelled shipment keeps its row, and
-- the orders of shipments are unique.
pub rebook_refused :
    (world world' world'' : World) (req req' : Request) (tenant user user' user'' : ℕ) (s : Session)
    (sh sh' : Shipment)
    → (create_shipment world req tenant user s).0 ≡ ok sh
    → let s1 = (create_shipment world req tenant user s).1 in
      (cancel_shipment world' sh.id tenant user' s1).0 ≡ ok tt
      → req'.order_id ≡ req.order_id
      → (create_shipment world'' req' tenant user''
          (cancel_shipment world' sh.id tenant user' s1).1).0
        ≢ ok sh'
rebook_refused world world' world'' req req' tenant user user' user'' s sh sh' created cancelled_ok
      same =
    let s1 : Session = (create_shipment world req tenant user s).1 in
    let s2 : Session = (cancel_shipment world' sh.id tenant user' s1).1 in
    let b = create_shipment-Booked world req tenant user s sh created in
    let c = cancel_shipment-Cancelled world' sh.id tenant user' s1 cancelled_ok in
    let there : shipment_for_order req'.order_id s1.committed ≡ some sh =
      ap (find_one (λ (x : Shipment). x.order_id == req'.order_id)) b.inserted
      ∙ ground (arith, b.of_order) in
    never_booked world'' req' tenant user'' s2 _ sh' (
      ap (find_one (λ (x : Shipment). x.order_id == req'.order_id)) c.row_cancelled
      ∙ find_one-update_where (λ (x : Shipment). x.order_id == req'.order_id)
          (λ x. x.id == c.shipment.id) (λ x. record x { status = cancelled }) s1.committed.shipments
          {x = sh} (λ y. refl) there)

clear-effects :
    (world : World) (req : Request) (tenant : ℕ) (s : Session)
    → (clear world req tenant s).1.effects ≡ s.effects
unfolding clear
clear-effects world req tenant s = ground arith

book_with_courier-answered :
    (world : World) (req : Request) (c : Cleared) (d : BookingData) (s : Session)
    → world.create_shipment c.provider.id (booking_request req c.order) ≡ answered d
    → book_with_courier world req c s
      ≡ (ok d, record s { effects = courier_booked c.order.id c.provider.id ∷ s.effects })
unfolding book_with_courier
book_with_courier-answered world req c d s accepted = ground arith

record_shipment-taken :
    (world : World) (req : Request) (tenant user : ℕ) (c : Cleared) (d : BookingData) (s : Session)
    (other : Shipment)
    → shipment_for_order req.order_id s.view ≡ some other
    → record_shipment world req tenant user c d s ≡ (err duplicate_order_id, s)
unfolding record_shipment
record_shipment-taken world req tenant user c d s other taken = ground arith

in_transaction-fails :
    {A : Type 0} (m : Call A) (s s' : Session) (e : Error)
    → m (record s { view = s.committed }) ≡ (err e, s')
    → in_transaction m s ≡ (err e, record s' { view = s'.committed })
unfolding in_transaction
in_transaction-fails m s s' e h = ground arith

-- Where an order has a shipment already, the checks pass and the courier accepts, a booking ends in
-- the error of the unique column, and adds to the service's effects exactly the courier's booking.
pub rebook_leaks :
    (world : World) (req : Request) (tenant user : ℕ) (s : Session) (other : Shipment) (c : Cleared)
    (d : BookingData)
    → shipment_for_order req.order_id s.committed ≡ some other
    → (clear world req tenant (record s { view = s.committed })).0 ≡ ok c
    → world.create_shipment c.provider.id (booking_request req c.order) ≡ answered d
    → let (r, s') = create_shipment world req tenant user s in
      (r ≡ err duplicate_order_id)
      × (s'.effects ≡ courier_booked c.order.id c.provider.id ∷ s.effects)
unfolding create_shipment
rebook_leaks world req tenant user s other c d taken cleared accepted =
    let s₀ : Session = record s { view = s.committed } in
    let s1 : Session = (clear world req tenant s₀).1 in
    let s2 : Session = record s1 {
      effects = courier_booked c.order.id c.provider.id ∷ s1.effects;
    } in
    let book_step : Cleared → Call BookingData = book_with_courier world req in
    let record_step : Cleared → BookingData → Call Shipment =
      record_shipment world req tenant user in
    let steps : Call Shipment =
      clear world req tenant >>= λ x. book_step x >>= λ y. record_step x y in
    let taken' : shipment_for_order req.order_id s1.view ≡ some other =
      ap (find_one (λ (x : Shipment). x.order_id == req.order_id))
        (clear-ok world req tenant s₀ c cleared).8
      ∙ taken in
    let answer = book_with_courier-answered world req c d s1 accepted in
    let run =
      >>=-ok (clear world req tenant) (λ x. book_step x >>= λ y. record_step x y) s₀ cleared
      ∙ >>=-ok (book_step c) (record_step c) s1
          (ap (λ (z : Result Error BookingData × Session). z.0) answer)
      ∙ ap (λ (z : Result Error BookingData × Session). record_step c d z.1) answer
      ∙ record_shipment-taken world req tenant user c d s2 other taken' in
    let failed = in_transaction-fails steps s s2 duplicate_order_id run in
    (
      ap (λ (z : Result Error Shipment × Session). z.0) failed,
      ap (λ (z : Result Error Shipment × Session). z.1.effects) failed
          ∙ ap (◌∷◌ (courier_booked c.order.id c.provider.id)) (clear-effects world req tenant s₀),
    )
