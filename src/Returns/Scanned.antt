-- ===== src/Returns/Scanned.antt =====
-- What detection does to the open failed deliveries and the returns of a shipment.
use saas_frontend.Base.{
  ℕ, ◌+◌, ◌≡◌, refl, false, some, pure, modify, arith, ltb, if◌then◌else◌, Option-cases, Bool-cases,
  inl, inr,
}
use saas_frontend.Shipping.{Shipment}
use saas_frontend.Status.Shipments.{system}
use saas_frontend.Tracking.{TrackingEvent}
use saas_frontend.Returns.Words.{
  rto_initiated, ReasonCode, RtoStatus, detect_ndr_reason, detect_rto_status,
}
use saas_frontend.Returns.Defs.{
  rto_begun, emit, auto_ndr_threshold, courier_initiated, threshold_surpassed, reverse_logistics,
  shipment_of, resolved_delivered, resolved_rto, is_open, end_shipment, NdrStatus, rto_of,
  create_rto, open_ndr, RtoRecord, Config, NdrEvent,
}
use saas_frontend.Returns.Detection.{
  give_up, finish_rto, is_returned, record_rto, received, event_of, handle_rto_event, is_delivered,
  detect_and_process_ndr_or_rto, resolve_open_ndr, count_attempt, handle_ndr_event, handle_event,
}
use saas_frontend.Returns.Keeping.{
  Keeps, Keeps-bind, Keeps-own_transaction, Keeps-update_ndr, Keeps-update_rto, Keeps-end_shipment,
  Keeps-create_rto, Keeps-create_ndr,
}

Keeps-resolve :
    (shipment : ℕ) (status : NdrStatus)
    → is_open status ≡ false
    → Keeps (modify (resolve_open_ndr shipment status))
Keeps-resolve shipment status shut t h = elim (Option-cases (open_ndr shipment t)) [
  | inl gone ↦ rw (resolve_open_ndr, gone) h
  | inr (ndr, there) ↦
      rw (resolve_open_ndr, there)
        (Keeps-update_ndr ndr.id (λ r. record r { status = status }) (λ y n. ground (arith, shut)) t
          h)
]

Keeps-give_up :
    (c : Config) (event : TrackingEvent) (sh : Shipment) (ndr : NdrEvent)
    → Keeps (give_up c event sh ndr)
Keeps-give_up c event sh ndr t h =
    let made =
      create_rto sh.tenant_id sh.id (threshold_surpassed (c.threshold sh.tenant_id))
        auto_ndr_threshold rto_initiated in
    Keeps-bind made (λ id. modify (end_shipment sh system)) (Keeps-create_rto _ _ _ _ _)
      (λ id. Keeps-end_shipment sh system) _
      (Keeps-update_ndr ndr.id
        (λ r. record r {
          attempt_number = ndr.attempt_number + 1;
          status = resolved_rto;
          tracking_event_id = some event.id;
        })
        (λ y n w. ground arith) t h)

Keeps-count_attempt :
    (c : Config) (event : TrackingEvent) (sh : Shipment) (ndr : NdrEvent)
    → Keeps (count_attempt c event sh ndr)
Keeps-count_attempt c event sh ndr t h =
    elim (Bool-cases (ltb (c.threshold sh.tenant_id) (ndr.attempt_number + 1))) [
      | inl over ↦ rw over (Keeps-give_up c event sh ndr t h)
      | inr within ↦ rw within (
          Keeps-update_ndr ndr.id
            (λ r. record r {
              attempt_number = ndr.attempt_number + 1;
              tracking_event_id = some event.id;
            })
            (λ y n w. w) t h)
    ]

Keeps-handle_ndr_event :
    (c : Config) (event : TrackingEvent) (sh : Shipment) (reason : ReasonCode)
    → Keeps (handle_ndr_event c event sh reason)
Keeps-handle_ndr_event c event sh reason t h = elim (Option-cases (open_ndr sh.id t)) [
  | inl new ↦ rw (handle_ndr_event, new) (Keeps-create_ndr c event sh reason t new h)
  | inr (ndr, there) ↦ rw (handle_ndr_event, there) (Keeps-count_attempt c event sh ndr t h)
]

Keeps-handle_rto_event :
    (c : Config) (event : TrackingEvent) (sh : Shipment) (status : RtoStatus)
    → Keeps (handle_rto_event c event sh status)
Keeps-handle_rto_event c event sh status =
    Keeps-bind (record_rto c event sh status)
      (λ _. if is_returned status then modify (finish_rto sh) else pure tt) recorded (λ _. finished)
  where
    kept : (r : RtoRecord) → (received c.now status r).shipment_id ≡ r.shipment_id
    kept r = ground arith

    recorded : Keeps (record_rto c event sh status)
    recorded t h = elim (Option-cases (rto_of sh.id t)) [
      | inl new ↦
          rw (record_rto, new)
            (Keeps-bind
              (create_rto sh.tenant_id sh.id (reverse_logistics event.scan.status) courier_initiated
                status)
              (λ id. modify (emit (rto_begun sh.tenant_id sh.awb_number courier_initiated)))
              (Keeps-create_rto _ _ _ _ _) (λ _ u k. k) t h)
      | inr (rto, there) ↦
          rw (record_rto, there) (Keeps-update_rto rto.id (received c.now status) kept t h)
    ]

    finished : Keeps (if is_returned status then modify (finish_rto sh) else pure tt)
    finished t h = elim (Bool-cases (is_returned status)) [
      | inl back ↦
          rw back (Keeps-end_shipment sh system _ (Keeps-resolve sh.id resolved_rto refl t h))
      | inr out ↦ rw out h
    ]

Keeps-handle_event :
    (c : Config) (event : TrackingEvent) (sh : Shipment) → Keeps (handle_event c event sh)
Keeps-handle_event c event sh t h =
    elim (Option-cases (detect_rto_status event.scan.status event.scan.remark)) [
      | inr (status, returns) ↦
          rw (handle_event, returns) (Keeps-handle_rto_event c event sh status t h)
      | inl on_its_way ↦
          elim (Option-cases (detect_ndr_reason event.scan.status event.scan.remark)) [
            | inr (reason, fails) ↦
                rw (handle_event, on_its_way, fails) (Keeps-handle_ndr_event c event sh reason t h)
            | inl well ↦ elim (Bool-cases (is_delivered event.scan.status)) [
              | inl there ↦
                  rw (handle_event, on_its_way, well, there)
                    (Keeps-resolve sh.id resolved_delivered refl t h)
              | inr under_way ↦ rw (handle_event, on_its_way, well, under_way) h
            ]
          ]
    ]

pub Keeps-detect : (c : Config) (id : ℕ) → Keeps (detect_and_process_ndr_or_rto c id)
unfolding detect_and_process_ndr_or_rto
Keeps-detect c id t h = elim (Option-cases (event_of id t)) [
  | inl gone ↦ rw gone h
  | inr (event, there) ↦ elim (Option-cases (shipment_of event.shipment_id t)) [
    | inl none_there ↦ rw (there, none_there) h
    | inr (sh, found) ↦
        rw (there, found)
          (Keeps-own_transaction (handle_event c event sh) (Keeps-handle_event c event sh) t h)
  ]
]
