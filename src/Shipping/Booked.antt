-- ===== src/Shipping/Booked.antt =====
-- What a booking that succeeds has found and done.
use saas_frontend.Base.{
  ℕ, ◌≤◌, ◌≡◌, sym, ap, ap₂, ◌∙◌, true, false, none, some, List, ◌∷◌, Result, ok, Result-cases,
  Option-cases, arith, inl, inr, ltb, update_where, find_one, ◌==◌,
}
use saas_frontend.Base.Int.{ℤ}
use saas_frontend.Status.Orders.{ready_to_ship, shipped, same_status}
use saas_frontend.Wallet
use saas_frontend.Wallet.Outcome
use saas_frontend.Wallet.{shipment_debit}
use saas_frontend.Plan
use saas_frontend.Plan.{max_orders_per_month}
use saas_frontend.Shipping.Defs.{
  Db, Order, World, Shipment, BookingData, CourierProvider, RateQuote,
}
use saas_frontend.Shipping.Session.{Session}
use saas_frontend.Shipping.Booking.{
  Request, Cleared, clear, book_with_courier, record_shipment, create_shipment, new_shipment,
  shipment_for_order, order_of, provider_of, matches_quote,
}

-- The debit of a booking, on the book of a session.
abbrev pub debit_of : Request → ℕ → ℕ → Session → Result Wallet.Error ℤ × Wallet.Book
debit_of req tenant user s =
    Wallet.debit tenant (some req.quoted_rate) shipment_debit (some s.view.next_id) (some user)
      (record s.view.book { effects = s.wallet_effects })

module _ (world : World) (req : Request) (tenant user : ℕ) (c : Cleared) (d : BookingData)
    (s : Session) where
  record_shipment-ok :
      (sh : Shipment)
      → (record_shipment world req tenant user c d s).0 ≡ ok sh
      → let v = (record_shipment world req tenant user c d s).1.view in
        (shipment_for_order req.order_id s.view ≡ none)
        × (sh ≡ new_shipment world req tenant user c d s.view.next_id)
        × (v.shipments ≡ sh ∷ s.view.shipments)
        × (v.orders
            ≡ update_where
                (λ o. o.id == c.order.id)
                (λ o. record o { status = shipped })
                s.view.orders)
        × (v.plan ≡ Plan.increment_usage tenant max_orders_per_month 1 s.view.plan)
        × (v.book ≡ record (debit_of req tenant user s).1 { effects = s.view.book.effects })
        × ((new : ℤ) × ((debit_of req tenant user s).0 ≡ ok new))
  unfolding record_shipment
  record_shipment-ok sh h = elim (Option-cases (shipment_for_order req.order_id s.view)) [
    | inr (other, taken) ↦ absurd (ground arith)
    | inl free ↦ elim (Result-cases (debit_of req tenant user s).0) [
      | inr (e, broke) ↦ absurd (ground arith)
      | inl (new, paid) ↦
          (free, ground arith, ground arith, ground arith, ground arith, ground arith, (new, paid))
    ]
  ]

  book_with_courier-view : (book_with_courier world req c s).1.view ≡ s.view
  unfolding book_with_courier
  book_with_courier-view = ground arith

  book_with_courier-wallet_effects :
      (book_with_courier world req c s).1.wallet_effects ≡ s.wallet_effects
  unfolding book_with_courier
  book_with_courier-wallet_effects = ground arith

module _ (world : World) (req : Request) (tenant : ℕ) (s : Session) where
  pub clear-ok :
      (c : Cleared)
      → (clear world req tenant s).0 ≡ ok c
      → let v = (clear world req tenant s).1.view in
        (order_of req.order_id tenant s.view ≡ some c.order)
        × (same_status c.order.status ready_to_ship ≡ true)
        × (find_one (matches_quote req) s.view.quotes ≡ some c.quote)
        × (ltb c.quote.expires_at world.now ≡ false)
        × ((Plan.check_limit tenant max_orders_per_month s.committed.plan).0 ≡ ok tt)
        × (provider_of req.courier_provider_id s.view ≡ some c.provider)
        × (c.provider.is_active ≡ true)
        × (v.orders ≡ s.view.orders)
        × (v.shipments ≡ s.view.shipments)
        × (v.plan ≡ (Plan.check_limit tenant max_orders_per_month s.view.plan).1)
        × (v.book ≡ s.view.book)
        × ((clear world req tenant s).1.wallet_effects ≡ s.wallet_effects)
        × (v.next_id ≡ s.view.next_id)
  unfolding clear
  clear-ok c h =
      let kept =
        Outcome.check_balance-keeps tenant (some req.quoted_rate)
          (record s.view.book { effects = s.wallet_effects }) in
      (
        ground arith,
        ground arith,
        ground arith,
        ground arith,
        ground arith,
        ground arith,
        ground arith,
        ground arith,
        ground arith,
        ground arith,
        ground arith,
        ground arith,
        ground arith,
      )

-- The state of an order, a shipment's row, a wallet and a count around a booking: `before` and
-- `after` are the committed tables.
pub record Booked (world : World) (req : Request) (tenant user : ℕ) (before after : Db)
    (sh : Shipment) : Type 0 where
  pub order : Order
  pub was_ready : order_of req.order_id tenant before ≡ some order
  pub ready : same_status order.status ready_to_ship ≡ true
  pub order_shipped :
      after.orders
      ≡ update_where (λ o. o.id == order.id) (λ o. record o { status = shipped }) before.orders
  pub not_shipped_yet : shipment_for_order req.order_id before ≡ none
  pub inserted : after.shipments ≡ sh ∷ before.shipments
  pub of_tenant : sh.tenant_id ≡ tenant
  pub of_order : sh.order_id ≡ req.order_id
  pub rate_is_quoted : sh.selected_rate ≡ req.quoted_rate
  pub quote : RateQuote
  pub quoted : find_one (matches_quote req) before.quotes ≡ some quote
  pub not_expired : world.now ≤ quote.expires_at
  pub provider : CourierProvider
  pub provided : provider_of req.courier_provider_id before ≡ some provider
  pub provider_active : provider.is_active ≡ true
  pub within_plan : (Plan.check_limit tenant max_orders_per_month before.plan).0 ≡ ok tt
  pub counted :
      after.plan
      ≡ Plan.increment_usage tenant max_orders_per_month 1
          (Plan.check_limit tenant max_orders_per_month before.plan).1
  pub new_balance : ℤ
  pub effects : List Wallet.Effect
  pub paid :
      (Wallet.debit tenant
        (some req.quoted_rate)
        shipment_debit
        (some sh.id)
        (some user)
        (record before.book { effects = effects })).0
      ≡ ok new_balance
  pub debited :
      after.book
      ≡ record (Wallet.debit tenant
          (some req.quoted_rate)
          shipment_debit
          (some sh.id)
          (some user)
          (record before.book { effects = effects })).1 { effects = before.book.effects }

module _ (world : World) (req : Request) (tenant user : ℕ) (s : Session) (sh : Shipment) where
  s₀ : Session
  s₀ = record s { view = s.committed }

  -- The stages of a booking that returned.
  stages :
      (create_shipment world req tenant user s).0 ≡ ok sh
      → (c : Cleared) × (d : BookingData) × ((clear world req tenant s₀).0 ≡ ok c)
        × ((book_with_courier world req c (clear world req tenant s₀).1).0 ≡ ok d)
        × ((record_shipment world req tenant user c d
              (book_with_courier world req c (clear world req tenant s₀).1).1).0
            ≡ ok sh)
        × ((create_shipment world req tenant user s).1.committed
            ≡ (record_shipment world req tenant user c d
                (book_with_courier world req c (clear world req tenant s₀).1).1).1.view)
  unfolding create_shipment s₀
  stages h = elim (Result-cases (clear world req tenant s₀).0) [
    | inr (e, x) ↦ absurd (ground arith)
    | inl (c, cleared) ↦
        elim (Result-cases (book_with_courier world req c (clear world req tenant s₀).1).0) [
          | inr (e, x) ↦ absurd (ground arith)
          | inl (d, answered) ↦ (c, d, cleared, answered, ground arith, ground arith)
        ]
  ]

  -- The debit that a booking makes, in terms of the committed tables.
  same_debit :
      (s' : Session)
      → s'.view.book ≡ s.committed.book
      → s'.wallet_effects ≡ s.wallet_effects
      → s'.view.next_id ≡ sh.id
      → debit_of req tenant user s'
        ≡ Wallet.debit tenant
            (some req.quoted_rate)
            shipment_debit
            (some sh.id)
            (some user)
            (record s.committed.book { effects = s.wallet_effects })
  same_debit s' e f g =
      ap₂
        (λ (i : ℕ) (b : Wallet.Book).
          Wallet.debit tenant (some req.quoted_rate) shipment_debit (some i) (some user) b)
        g (λ i. record (e i) { effects = f i })

  -- A booking that returns a shipment found an order of the tenant that was ready to ship and had no
  -- shipment, a quote of that price that had not expired, an active provider, room in the plan and
  -- enough money. In one commit it has added the shipment at the quoted rate, marked the order as
  -- shipped, taken the rate from the wallet with an entry in the ledger, and counted the order.
  pub create_shipment-Booked :
      (create_shipment world req tenant user s).0 ≡ ok sh
      → Booked world req tenant user s.committed
          (create_shipment world req tenant user s).1.committed
          sh
  unfolding s₀
  create_shipment-Booked h =
      let (c, d, cleared, answered, recorded, committed) = stages h in
      let s1 : Session = (clear world req tenant s₀).1 in
      let s2 : Session = (book_with_courier world req c s1).1 in
      let k = clear-ok world req tenant s₀ c cleared in
      let r = record_shipment-ok world req tenant user c d s2 sh recorded in
      let v2 = book_with_courier-view world req tenant user c d s1 in
      let w2 = book_with_courier-wallet_effects world req tenant user c d s1 in
      let paid =
        same_debit s2 (ap (λ (v : Db). v.book) v2 ∙ k.10) (w2 ∙ k.11)
          (sym (ap (λ (x : Shipment). x.id) r.1)) in
      record {
        order = c.order;
        was_ready = k.0;
        ready = k.1;
        order_shipped =
            ap (λ (v : Db). v.orders) committed
            ∙ r.3
            ∙ ap (update_where (λ o. o.id == c.order.id) (λ o. record o { status = shipped }))
                (ap (λ (v : Db). v.orders) v2 ∙ k.7);
        not_shipped_yet =
            ap (λ (l : List Shipment). find_one (λ (x : Shipment). x.order_id == req.order_id) l)
              (sym (ap (λ (v : Db). v.shipments) v2 ∙ k.8))
            ∙ r.0;
        inserted =
            ap (λ (v : Db). v.shipments) committed
            ∙ r.2
            ∙ ap (◌∷◌ sh) (ap (λ (v : Db). v.shipments) v2 ∙ k.8);
        of_tenant = ap (λ (x : Shipment). x.tenant_id) r.1;
        of_order = ap (λ (x : Shipment). x.order_id) r.1;
        rate_is_quoted = ap (λ (x : Shipment). x.selected_rate) r.1;
        quote = c.quote;
        quoted = k.2;
        not_expired = ground (arith, k.3);
        provider = c.provider;
        provided = k.5;
        provider_active = k.6;
        within_plan = k.4;
        counted =
            ap (λ (v : Db). v.plan) committed
            ∙ r.4
            ∙ ap (Plan.increment_usage tenant max_orders_per_month 1)
                (ap (λ (v : Db). v.plan) v2 ∙ k.9);
        new_balance = r.6.0;
        effects = s.wallet_effects;
        paid = sym (ap (λ (z : Result Wallet.Error ℤ × Wallet.Book). z.0) paid) ∙ r.6.1;
        debited =
            ap (λ (v : Db). v.book) committed
            ∙ r.5
            ∙ ap₂ (λ (b : Wallet.Book) (o : Wallet.Book). record b { effects = o.effects })
                (ap (λ (z : Result Wallet.Error ℤ × Wallet.Book). z.1) paid)
                (ap (λ (v : Db). v.book) v2 ∙ k.10);
      }
