-- ===== src/Returns/Keeping.antt =====
-- One open failed delivery and one return at most for a shipment, and what the steps of a call do to
-- that.
use saas_frontend.Base.{
  subst, sym, ℕ, ◌≤◌, ◌≡◌, ap, ◌∙◌, Bool, true, false, Option, none, some, Result, ok, err, pure,
  gets, or_throw, throw_if, modify, ◌>>=◌, arith, ◌==◌, ==_iff, count_where,
  count_where-update_where, count_where-none, Option-cases, Bool-cases, Result-cases, inl, inr,
}
use saas_frontend.Shipping.{Shipment}
use saas_frontend.Status.Shipments.{Source, same_status, cancelled}
use saas_frontend.Tracking.{TrackingEvent}
use saas_frontend.Returns.Words.{ReasonCode, RtoStatus}
use saas_frontend.Returns.Defs.{
  close, end_shipment, rto_of, create_rto, is_for, own_transaction, InitiatedBy, update_rto,
  open_ndr, update_ndr, Error, InitiatedReason, RtoRecord, Config, is_open_for, Call, NdrEvent,
  Returns,
}
use saas_frontend.Returns.Detection.{create_ndr}

abbrev pub IsSingle : Returns → Type 0
IsSingle t =
    (shipment : ℕ)
    → (count_where (is_open_for shipment) t.ndrs ≤ 1) × (count_where (is_for shipment) t.rtos ≤ 1)

-- Whatever comes of a call.
abbrev pub Keeps : {A : Type 0} → Call A → Type 0
Keeps call = (t : Returns) → IsSingle t → IsSingle (call t).1

pub Keeps-pure : {A : Type 0} (a : A) → Keeps (pure a)
Keeps-pure a t h = h

pub Keeps-gets : {A : Type 0} (f : Returns → A) → Keeps (gets f)
Keeps-gets f t h = h

pub Keeps-bind :
    {A B : Type 0} (m : Call A) (f : A → Call B)
    → Keeps m
    → ((a : A) → Keeps (f a))
    → Keeps (m >>= f)
Keeps-bind m f first second t h = elim (Result-cases (m t).0) [
  | inl (a, went) ↦ rw (◌>>=◌, went) (second a (m t).1 (first t h))
  | inr (e, threw) ↦ rw (◌>>=◌, threw) (first t h)
]

pub Keeps-or_throw : {A : Type 0} (o : Option A) (e : Error) → Keeps (or_throw o e)
Keeps-or_throw none e t h = h
Keeps-or_throw (some a) e t h = h

pub Keeps-throw_if : (b : Bool) (e : Error) → Keeps (throw_if b e)
Keeps-throw_if true e t h = h
Keeps-throw_if false e t h = h

pub Keeps-own_transaction : {A : Type 0} (m : Call A) → Keeps m → Keeps (own_transaction m)
Keeps-own_transaction m keeps t h = closed (m t) (keeps t h)
  where
    closed : {A : Type 0} (r : Result Error A × Returns) → IsSingle r.1 → IsSingle (close t r).1
    closed (ok a, t') h' = h'
    closed (err e, t') h' = h

pub Keeps-update_ndr :
    (id : ℕ) (f : NdrEvent → NdrEvent)
    → ((y : NdrEvent) (shipment : ℕ)
        → is_open_for shipment (f y) ≡ true
        → is_open_for shipment y ≡ true)
    → Keeps (modify (update_ndr id f))
Keeps-update_ndr id f old t h shipment =
    let less =
      count_where-update_where (is_open_for shipment) (λ (r : NdrEvent). r.id == id) f t.ndrs
        (λ y w. old y shipment) in
    (omega (arith, less, (h shipment).0), (h shipment).1)

pub Keeps-update_rto :
    (id : ℕ) (f : RtoRecord → RtoRecord)
    → ((y : RtoRecord) → (f y).shipment_id ≡ y.shipment_id)
    → Keeps (modify (update_rto id f))
Keeps-update_rto id f same t h shipment =
    let less =
      count_where-update_where (is_for shipment) (λ (r : RtoRecord). r.id == id) f t.rtos
        (λ y w hit. ap (λ n. n == shipment) (sym (same y)) ∙ hit) in
    ((h shipment).0, omega (arith, less, (h shipment).1))

pub Keeps-end_shipment : (sh : Shipment) (source : Source) → Keeps (modify (end_shipment sh source))
Keeps-end_shipment sh source t h = elim (Bool-cases (same_status sh.status cancelled)) [
  | inl ended ↦ rw ended h
  | inr living ↦ rw living h
]

pub Keeps-create_rto :
    (tenant shipment : ℕ) (reason : InitiatedReason) (by : InitiatedBy) (status : RtoStatus)
    → Keeps (create_rto tenant shipment reason by status)
Keeps-create_rto tenant shipment reason by status t h = elim (Option-cases (rto_of shipment t)) [
  | inr (r, there) ↦ rw there h
  | inl new ↦ rw new (λ other.
      let none_yet = count_where-none (is_for shipment) t.rtos new in
      (
        (h other).0,
        elim (Bool-cases (shipment == other)) [
          | inl same ↦
              let none_there : count_where (is_for other) t.rtos ≡ 0 =
                subst (λ n. count_where (is_for n) t.rtos ≡ 0) ((==_iff shipment other).0 same)
                  none_yet in
              ground (arith, none_there)
          | inr apart ↦ ground (arith, (h other).1)
        ],
      ))
]

pub Keeps-create_ndr :
    (c : Config) (event : TrackingEvent) (sh : Shipment) (reason : ReasonCode) (t : Returns)
    → open_ndr sh.id t ≡ none
    → IsSingle t
    → IsSingle (create_ndr c event sh reason t)
Keeps-create_ndr c event sh reason t new h other =
    let none_yet = count_where-none (is_open_for sh.id) t.ndrs new in
    (
      elim (Bool-cases (sh.id == other)) [
        | inl same ↦
            let none_there : count_where (is_open_for other) t.ndrs ≡ 0 =
              subst (λ n. count_where (is_open_for n) t.ndrs ≡ 0) ((==_iff sh.id other).0 same)
                none_yet in
            ground (arith, none_there)
        | inr apart ↦ ground (arith, (h other).0)
      ],
      (h other).1,
    )
