-- ===== src/Shipping/Atomic.antt =====
-- What is left of a booking or a cancellation that fails.
use saas_frontend.Base.{
  ℕ, ◌≡◌, ◌⊎◌, ◌∙◌, err, Result-cases, >>=-ok, >>=-err, ◌>>=◌, ◌>>◌, arith, inl, inr,
}
use saas_frontend.Plan
use saas_frontend.Plan.{max_orders_per_month}
use saas_frontend.Shipping.Defs.{Error, World, Shipment, BookingData}
use saas_frontend.Shipping.Session.{Session, Call, in_transaction}
use saas_frontend.Shipping.Booking.{
  Request, Cleared, clear, book_with_courier, record_shipment, create_shipment,
}
use saas_frontend.Shipping.Cancelling.{
  find_cancellable, cancel_with_courier, record_cancellation, cancel_shipment,
}

-- A call that leaves the committed tables alone.
abbrev Keeps : {A : Type 0} → Call A → Type 0
Keeps m = (s : Session) → (m s).1.committed ≡ s.committed

find_cancellable-Keeps : (world : World) (id tenant : ℕ) → Keeps (find_cancellable world id tenant)
unfolding find_cancellable
find_cancellable-Keeps world id tenant s = ground arith

cancel_with_courier-Keeps : (world : World) (sh : Shipment) → Keeps (cancel_with_courier world sh)
unfolding cancel_with_courier
cancel_with_courier-Keeps world sh s = ground arith

record_cancellation-Keeps :
    (world : World) (tenant user : ℕ) (sh : Shipment)
    → Keeps (record_cancellation world tenant user sh)
unfolding record_cancellation
record_cancellation-Keeps world tenant user sh s = ground arith

book_with_courier-Keeps :
    (world : World) (req : Request) (c : Cleared) → Keeps (book_with_courier world req c)
unfolding book_with_courier
book_with_courier-Keeps world req c s = ground arith

record_shipment-Keeps :
    (world : World) (req : Request) (tenant user : ℕ) (c : Cleared) (d : BookingData)
    → Keeps (record_shipment world req tenant user c d)
unfolding record_shipment
record_shipment-Keeps world req tenant user c d s = ground arith

-- The checks before a booking touch at most the committed plan tables, as `checkLimit` does.
clear-plan_only :
    (world : World) (req : Request) (tenant : ℕ) (s : Session)
    → let s' = (clear world req tenant s).1 in
      (s'.committed ≡ s.committed)
      ⊎ (s'.committed ≡ record s.committed {
        plan = (Plan.check_limit tenant max_orders_per_month s.committed.plan).1;
      })
unfolding clear
clear-plan_only world req tenant s = ground arith

bind-Keeps :
    {A B : Type 0} (m : Call A) (f : A → Call B)
    → ((a : A) → Keeps (f a))
    → (s : Session) → ((m >>= f) s).1.committed ≡ (m s).1.committed
bind-Keeps m f keeps s = elim (Result-cases (m s).0) [
  | inl (a, e) ↦ rw (>>=-ok m f s e) (keeps a (m s).1)
  | inr (e, h) ↦ rw (>>=-err m f s h)
]

in_transaction-err :
    {A : Type 0} (m : Call A) (s : Session) (e : Error)
    → (in_transaction m s).0 ≡ err e
    → ((in_transaction m s).1.committed ≡ (m (record s { view = s.committed })).1.committed)
      × ((in_transaction m s).1.view ≡ (in_transaction m s).1.committed)
unfolding in_transaction
in_transaction-err m s e h = ground arith

-- A booking that fails, whatever the reason, leaves every committed table as it was, but for the row
-- of the billing period that the check of the plan's limit may have made.
pub create_shipment-err :
    (world : World) (req : Request) (tenant user : ℕ) (s : Session) (e : Error)
    → (create_shipment world req tenant user s).0 ≡ err e
    → let s' = (create_shipment world req tenant user s).1 in
      ((s'.committed ≡ s.committed)
        ⊎ (s'.committed ≡ record s.committed {
          plan = (Plan.check_limit tenant max_orders_per_month s.committed.plan).1;
        }))
      × (s'.view ≡ s'.committed)
unfolding create_shipment
create_shipment-err world req tenant user s e h =
    let m : Call Shipment = do
      c ← clear world req tenant
      d ← book_with_courier world req c
      record_shipment world req tenant user c d
    in let gone = in_transaction-err m s e h in
      let s₀ : Session = record s { view = s.committed } in
      let same : (m s₀).1.committed ≡ (clear world req tenant s₀).1.committed =
        bind-Keeps (clear world req tenant)
          (λ c. book_with_courier world req c >>= λ d. record_shipment world req tenant user c d)
          (λ c s'.
            bind-Keeps (book_with_courier world req c) (record_shipment world req tenant user c)
              (λ d. record_shipment-Keeps world req tenant user c d) s'
            ∙ book_with_courier-Keeps world req c s')
          s₀ in
      (rw (gone.0, same) (clear-plan_only world req tenant s₀), gone.1)

-- A cancellation that fails leaves every committed table as it was.
pub cancel_shipment-err :
    (world : World) (id tenant user : ℕ) (s : Session) (e : Error)
    → (cancel_shipment world id tenant user s).0 ≡ err e
    → let s' = (cancel_shipment world id tenant user s).1 in
      (s'.committed ≡ s.committed) × (s'.view ≡ s.committed)
unfolding cancel_shipment
cancel_shipment-err world id tenant user s e h =
    let m : Call (Unit {0}) = do
      sh ← find_cancellable world id tenant
      cancel_with_courier world sh
      record_cancellation world tenant user sh
    in let gone = in_transaction-err m s e h in
      let s₀ : Session = record s { view = s.committed } in
      let same : (m s₀).1.committed ≡ s.committed =
        bind-Keeps (find_cancellable world id tenant)
          (λ sh. cancel_with_courier world sh >> record_cancellation world tenant user sh)
          (λ sh s'.
            bind-Keeps (cancel_with_courier world sh)
              (λ _. record_cancellation world tenant user sh)
              (λ _. record_cancellation-Keeps world tenant user sh) s'
            ∙ cancel_with_courier-Keeps world sh s')
          s₀
        ∙ find_cancellable-Keeps world id tenant s₀ in
      (gone.0 ∙ same, gone.1 ∙ gone.0 ∙ same)
