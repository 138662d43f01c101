-- ===== src/Returns/Acted.antt =====
-- What the actions of a seller and the status of a return do to the open failed deliveries and the
-- returns of a shipment.
use saas_frontend.Base.Text.{Text}
use saas_frontend.Base.{
  ℕ, Bool, ◌&&◌, Option, some, List, [], ◌∷◌, pure, gets, or_throw, throw_if, modify, ◌>>=◌, ◌>>◌,
  arith, ltb, count_where-update_where, Option-cases, Bool-cases, inl, inr, length, suc,
}
use saas_frontend.Shipping.{Shipment}
use saas_frontend.Status.Shipments.{manual, same_status, cancelled}
use saas_frontend.Returns.Words.{rto_initiated, RtoStatus}
use saas_frontend.Returns.Defs.{
  ndr_already_resolved, address_required, update_address, phone_required, update_phone, by_hand,
  missing_shipment, marked, mark_rto, ActionType, shipment_of, resolved_rto, end_shipment,
  NdrStatus, create_rto, update_rto, update_ndr, Error, RtoRecord, is_open_for, Call, NdrEvent,
  Returns,
}
use saas_frontend.Returns.Detection.{is_returned}
use saas_frontend.Returns.Actions.{
  rto_by_id, set_rto_status, is_resolved, save_params, is_blank, ndr_by_id, act_by_id, resolve_ndrs,
  update_rto_status, carry_out, take_bulk_ndr_action, receive_back, act_on_each, record_action,
  next_status, act_on_ndr, notify, is_action, mark_if_rto, ask_courier, settle_action, ActionData,
  take_ndr_action,
}
use saas_frontend.Returns.Keeping.{
  IsSingle, Keeps, Keeps-bind, Keeps-throw_if, Keeps-own_transaction, Keeps-update_ndr,
  Keeps-update_rto, Keeps-end_shipment, Keeps-create_rto,
}

Keeps-guard : {A : Type 0} (b : Bool) (e : Error) (m : Call A) → Keeps m → Keeps (throw_if b e >> m)
Keeps-guard b e m keeps = Keeps-bind (throw_if b e) (λ _. m) (Keeps-throw_if b e) (λ _. keeps)

Keeps-ask_courier :
    (reaches : ℕ → Bool) (kind : ActionType) (ndr : NdrEvent) → Keeps (ask_courier reaches kind ndr)
Keeps-ask_courier reaches kind ndr t h = ground arith

abbrev finish : NdrEvent → ℕ → Call (Option ℕ)
finish ndr id = do
  sh ← or_throw (← gets (shipment_of ndr.shipment_id)) missing_shipment
  modify (end_shipment sh manual)
  pure (some id)

Keeps-finish : (ndr : NdrEvent) (id : ℕ) → Keeps (finish ndr id)
Keeps-finish ndr id t h = elim (Option-cases (shipment_of ndr.shipment_id t)) [
  | inl gone ↦ rw gone h
  | inr (sh, found) ↦ rw found (Keeps-end_shipment sh manual t h)
]

Keeps-notify : (kind : ActionType) (sh : Option Shipment) → Keeps (modify (notify kind sh))
Keeps-notify kind sh t h = ground arith

Keeps-mark_if_rto :
    (tenant : ℕ) (d : ActionData) (ndr : NdrEvent) → Keeps (mark_if_rto tenant d ndr)
Keeps-mark_if_rto tenant d ndr t h = elim (Bool-cases (is_action d.action_type mark_rto)) [
  | inr other ↦ rw other h
  | inl returns ↦ rw returns (
      Keeps-bind (create_rto tenant ndr.shipment_id (marked d.notes) by_hand rto_initiated)
        (finish ndr) (Keeps-create_rto _ _ _ _ _) (Keeps-finish ndr) t h)
]

Keeps-settle_action :
    (user : ℕ) (d : ActionData) (ndr : NdrEvent) → Keeps (modify (settle_action user d ndr))
Keeps-settle_action user d ndr t h =
    let acted : Returns =
      update_ndr ndr.id (λ r. record r { status = next_status d.action_type })
        (record_action ndr.id user d t) in
    let updated : IsSingle acted =
      Keeps-update_ndr ndr.id (λ r. record r { status = next_status d.action_type })
        (λ y n w. ground arith) (record_action ndr.id user d t) h in
    Keeps-notify d.action_type (shipment_of ndr.shipment_id acted) acted updated

Keeps-act_on_ndr :
    (reaches : ℕ → Bool) (tenant user : ℕ) (d : ActionData) (ndr : NdrEvent)
    → Keeps (act_on_ndr reaches tenant user d ndr)
Keeps-act_on_ndr reaches tenant user d ndr =
    Keeps-bind (ask_courier reaches d.action_type ndr) (λ _. after)
      (Keeps-ask_courier reaches d.action_type ndr)
      (λ _.
        Keeps-bind (mark_if_rto tenant d ndr) conclude (Keeps-mark_if_rto tenant d ndr)
          (λ rto t h. Keeps-settle_action user d ndr t h))
  where
    conclude : Option ℕ → Call (NdrStatus × Option ℕ)
    conclude rto = modify (settle_action user d ndr) >> pure (next_status d.action_type, rto)

    after : Call (NdrStatus × Option ℕ)
    after = mark_if_rto tenant d ndr >>= conclude

Keeps-carry_out :
    (reaches : ℕ → Bool) (tenant user : ℕ) (d : ActionData) (ndr : NdrEvent)
    → Keeps (carry_out reaches tenant user d ndr)
Keeps-carry_out reaches tenant user d ndr =
    let call : Call (NdrStatus × Option ℕ) = act_on_ndr reaches tenant user d ndr in
    let phone : Call (NdrStatus × Option ℕ) =
      throw_if (is_action d.action_type update_phone && is_blank d.updated_phone) phone_required
      >> call in
    let address : Call (NdrStatus × Option ℕ) =
      throw_if (is_action d.action_type update_address && is_blank d.updated_address_line1)
        address_required
      >> phone in
    Keeps-guard (is_resolved ndr.status) ndr_already_resolved address (
      Keeps-guard _ address_required phone
        (Keeps-guard _ phone_required call (Keeps-act_on_ndr reaches tenant user d ndr)))

pub Keeps-take :
    (reaches : ℕ → Bool) (id tenant user : ℕ) (d : ActionData)
    → Keeps (take_ndr_action reaches id tenant user d)
unfolding take_ndr_action
Keeps-take reaches id tenant user d =
    Keeps-own_transaction (act_by_id reaches id tenant user d) (λ t h.
      elim (Option-cases (ndr_by_id id tenant t)) [
        | inl gone ↦ rw (act_by_id, gone) h
        | inr (ndr, there) ↦ rw (act_by_id, there) (Keeps-carry_out reaches tenant user d ndr t h)
      ])

Keeps-act_on_each :
    (reaches : ℕ → Bool) (tenant user : ℕ) (d : ActionData) (ids : List ℕ) (t : Returns)
    → IsSingle t
    → IsSingle (act_on_each reaches tenant user d ids t).1
unfolding act_on_each
Keeps-act_on_each reaches tenant user d [] t h = h
Keeps-act_on_each reaches tenant user d (id ∷ ids) t h =
    Keeps-act_on_each reaches tenant user d ids _ (Keeps-take reaches id tenant user d t h)

pub Keeps-bulk :
    (reaches : ℕ → Bool) (tenant user : ℕ) (d : ActionData) (ids : List ℕ) (t : Returns)
    → IsSingle t
    → IsSingle (take_bulk_ndr_action reaches tenant user d ids t).1
unfolding take_bulk_ndr_action
Keeps-bulk reaches tenant user d [] t h = h
Keeps-bulk reaches tenant user d (id ∷ ids) t h = elim (Bool-cases (ltb 100 (suc (length ids)))) [
  | inl over ↦ rw over h
  | inr within ↦ rw within (Keeps-act_on_each reaches tenant user d (id ∷ ids) t h)
]

Keeps-receive_back : (rto : RtoRecord) → Keeps (receive_back rto)
Keeps-receive_back rto t h =
    let resolved : IsSingle (resolve_ndrs rto.shipment_id t) = λ shipment.
      let less =
        count_where-update_where (is_open_for shipment) (is_open_for rto.shipment_id)
          (λ r. record r { status = resolved_rto }) t.ndrs (λ y w n. ground arith) in
      (omega (arith, less, (h shipment).0), (h shipment).1) in
    elim (Option-cases (shipment_of rto.shipment_id t)) [
      | inl gone ↦ rw gone resolved
      | inr (sh, there) ↦ elim (Bool-cases (same_status sh.status cancelled)) [
        | inl ended ↦ rw (there, ended) resolved
        | inr living ↦ rw (there, living) resolved
      ]
    ]

Keeps-save_params :
    (now : ℕ) (status : RtoStatus) (awb : Option Text) (id : ℕ)
    → Keeps (modify (update_rto id (save_params now status awb)))
Keeps-save_params now status awb id =
    Keeps-update_rto id (save_params now status awb) (λ y. ground arith)

pub Keeps-update_rto_status :
    (now id tenant : ℕ) (status : RtoStatus) (awb : Option Text)
    → Keeps (update_rto_status now id tenant status awb)
unfolding update_rto_status
Keeps-update_rto_status now id tenant status awb =
    Keeps-own_transaction (set_rto_status now id tenant status awb) (λ t h.
      elim (Option-cases (rto_by_id id tenant t)) [
        | inl gone ↦ rw (set_rto_status, gone) h
        | inr (rto, there) ↦
            let saved = Keeps-save_params now status awb rto.id t h in
            elim (Bool-cases (is_returned status)) [
              | inl back ↦ rw (set_rto_status, there, back) (Keeps-receive_back rto _ saved)
              | inr out ↦ rw (set_rto_status, there, out) saved
            ]
      ])
