-- ===== src/Returns/Actions.antt =====
-- The actions of a seller on a delivery that failed, and the status of a return.
use saas_frontend.Base.{
  ℕ, suc, ◌+◌, Bool, true, false, ◌&&◌, Option, none, some, List, [], ◌∷◌, Result, ok, err, pure,
  gets, or_throw, throw_if, modify, ◌>>=◌, ◌>>◌, ◌==◌, ltb, if◌then◌else◌, find_one, update_where,
  length,
}
use saas_frontend.Base.Text.{Text}
use saas_frontend.Status.Shipments.{same_status, cancelled, manual}
use saas_frontend.Shipping.{Shipment}
use saas_frontend.Returns.Words.{RtoStatus, rto_initiated}
use saas_frontend.Returns.Defs.{
  NdrStatus, NdrEvent, action_taken, resolved_delivered, resolved_rto, ActionType, reattempt,
  update_address, update_phone, mark_rto, RtoRecord, by_hand, marked, ndr_action_taken, rto_begun,
  reattempt_requested, Returns, Error, ndr_not_found, ndr_already_resolved, address_required,
  phone_required, rto_not_found, missing_shipment, Call, own_transaction, shipment_of, is_open_for,
  update_ndr, update_rto, emit, set_cancelled, log_cancelled, end_shipment, create_rto,
}
use saas_frontend.Returns.Detection.{is_returned, received}

-- `actionData`
pub record ActionData : Type 0 where
  pub action_type : ActionType
  pub notes : Option Text
  pub updated_address_line1 : Option Text
  pub updated_phone : Option Text

abbrev pub is_resolved : NdrStatus → Bool
is_resolved resolved_delivered = true
is_resolved resolved_rto = true
is_resolved _ = false

-- `!value`
abbrev pub is_blank : Option Text → Bool
is_blank (some (c ∷ s)) = false
is_blank _ = true

abbrev pub is_action : ActionType → ActionType → Bool
is_action update_address update_address = true
is_action update_phone update_phone = true
is_action mark_rto mark_rto = true
is_action _ _ = false

abbrev pub asks_courier : ActionType → Bool
asks_courier reattempt = true
asks_courier update_address = true
asks_courier update_phone = true
asks_courier _ = false

-- `callCourierReattempt`, whose failure is logged and swallowed. `reaches` tells of which providers
-- the adapter can be made and takes such requests.
abbrev pub call_courier_reattempt : (ℕ → Bool) → ActionType → Shipment → Returns → Returns
call_courier_reattempt reaches kind sh t =
    if reaches sh.courier_provider_id
    then emit (reattempt_requested sh.courier_provider_id sh.awb_number kind) t
    else t

abbrev pub next_status : ActionType → NdrStatus
next_status mark_rto = resolved_rto
next_status _ = action_taken

abbrev pub ask_courier : (ℕ → Bool) → ActionType → NdrEvent → Call (Unit {0})
ask_courier reaches kind ndr =
    if asks_courier kind
    then (do
      sh ← or_throw (← gets (shipment_of ndr.shipment_id)) missing_shipment
      modify (call_courier_reattempt reaches kind sh))
    else pure tt

abbrev pub return_by_hand : ℕ → Option Text → NdrEvent → Call (Option ℕ)
return_by_hand tenant notes ndr = do
  id ← create_rto tenant ndr.shipment_id (marked notes) by_hand rto_initiated
  sh ← or_throw (← gets (shipment_of ndr.shipment_id)) missing_shipment
  modify (end_shipment sh manual)
  pure (some id)

abbrev pub mark_if_rto : ℕ → ActionData → NdrEvent → Call (Option ℕ)
mark_if_rto tenant d ndr =
    if is_action d.action_type mark_rto then return_by_hand tenant d.notes ndr else pure none

abbrev pub record_action : ℕ → ℕ → ActionData → Returns → Returns
record_action ndr user d t = record t {
  actions =
      record {
        ndr_event_id = ndr;
        action_type = d.action_type;
        notes = d.notes;
        updated_address_line1 =
            if is_action d.action_type update_address then d.updated_address_line1 else none;
        updated_phone = if is_action d.action_type update_phone then d.updated_phone else none;
        performed_by = user;
      }
      ∷ t.actions;
}

-- The hooks after the commit, which read the shipment again.
abbrev pub notify : ActionType → Option Shipment → Returns → Returns
notify kind none t = t
notify kind (some sh) t =
    let t' = emit (ndr_action_taken sh.tenant_id sh.awb_number kind) t in
    if is_action kind mark_rto then emit (rto_begun sh.tenant_id sh.awb_number by_hand) t' else t'

-- The row of the action, the status of the event, and the hooks.
abbrev pub settle_action : ℕ → ActionData → NdrEvent → Returns → Returns
settle_action user d ndr t =
    let t' : Returns =
      update_ndr ndr.id (λ r. record r { status = next_status d.action_type })
        (record_action ndr.id user d t) in
    notify d.action_type (shipment_of ndr.shipment_id t') t'

abbrev pub act_on_ndr : (ℕ → Bool) → ℕ → ℕ → ActionData → NdrEvent → Call (NdrStatus × Option ℕ)
act_on_ndr reaches tenant user d ndr = do
  ask_courier reaches d.action_type ndr
  rto ← mark_if_rto tenant d ndr
  modify (settle_action user d ndr)
  pure (next_status d.action_type, rto)

abbrev pub carry_out : (ℕ → Bool) → ℕ → ℕ → ActionData → NdrEvent → Call (NdrStatus × Option ℕ)
carry_out reaches tenant user d ndr = do
  throw_if (is_resolved ndr.status) ndr_already_resolved
  throw_if (is_action d.action_type update_address && is_blank d.updated_address_line1)
      address_required
  throw_if (is_action d.action_type update_phone && is_blank d.updated_phone) phone_required
  act_on_ndr reaches tenant user d ndr

abbrev pub ndr_by_id : ℕ → ℕ → Returns → Option NdrEvent
ndr_by_id id tenant t = find_one (λ r. (r.id == id) && (r.tenant_id == tenant)) t.ndrs

abbrev pub act_by_id : (ℕ → Bool) → ℕ → ℕ → ℕ → ActionData → Call (NdrStatus × Option ℕ)
act_by_id reaches id tenant user d = do
  ndr ← or_throw (← gets (ndr_by_id id tenant)) ndr_not_found
  carry_out reaches tenant user d ndr

-- `takeNdrAction` with a transaction of its own
unfoldable pub take_ndr_action : (ℕ → Bool) → ℕ → ℕ → ℕ → ActionData → Call (NdrStatus × Option ℕ)
take_ndr_action reaches id tenant user d = own_transaction (act_by_id reaches id tenant user d)

-- What a batch answers: the counts, and of each id whether it went well.
pub record BulkResult : Type 0 where
  pub processed : ℕ
  pub failed : ℕ
  pub details : List (ℕ × Option Error)

abbrev pub tally : ℕ → Result Error (NdrStatus × Option ℕ) → BulkResult → BulkResult
tally id (ok a) r = record r { processed = r.processed + 1; details = (id, none) ∷ r.details }
tally id (err e) r = record r { failed = r.failed + 1; details = (id, some e) ∷ r.details }

-- The loop over the ids; the details come in the order of the ids.
unfoldable pub act_on_each :
    (ℕ → Bool) → ℕ → ℕ → ActionData → List ℕ → Returns → BulkResult × Returns
unfolding take_ndr_action
act_on_each reaches tenant user d [] t = (record { processed = 0; failed = 0; details = [] }, t)
act_on_each reaches tenant user d (id ∷ ids) t =
    let (r, t') = take_ndr_action reaches id tenant user d t in
    let (rest, t'') = act_on_each reaches tenant user d ids t' in (tally id r rest, t'')

pub data BulkError : Type 0 where
  ids_required too_many_ids : BulkError

-- `takeBulkNdrAction`
unfoldable pub take_bulk_ndr_action :
    (ℕ → Bool) → ℕ → ℕ → ActionData → List ℕ → Returns → Result BulkError BulkResult × Returns
unfolding act_on_each
take_bulk_ndr_action reaches tenant user d [] t = (err ids_required, t)
take_bulk_ndr_action reaches tenant user d (id ∷ ids) t =
    let (r, t') = act_on_each reaches tenant user d (id ∷ ids) t in
    if ltb 100 (suc (length ids)) then (err too_many_ids, t) else (ok r, t')

-- `saveParams`: the note is set on the instance alone, and not saved.
abbrev pub save_params : ℕ → RtoStatus → Option Text → RtoRecord → RtoRecord
save_params now status awb r =
    if is_blank awb
    then received now status r
    else record (received now status r) { rto_awb_number = awb }

-- `NdrEvent.update({ status: 'resolved_rto' }, { where: { shipment_id, status: 'open' } })`
abbrev pub resolve_ndrs : ℕ → Returns → Returns
resolve_ndrs shipment t = record t {
  ndrs = update_where (is_open_for shipment) (λ r. record r { status = resolved_rto }) t.ndrs;
}

abbrev pub receive_back : RtoRecord → Call (Unit {0})
receive_back rto = do
  modify (resolve_ndrs rto.shipment_id)
  sh ← or_throw (← gets (shipment_of rto.shipment_id)) missing_shipment
  modify (if same_status sh.status cancelled then (λ t. t) else set_cancelled sh)
  modify (log_cancelled sh manual)

abbrev pub rto_by_id : ℕ → ℕ → Returns → Option RtoRecord
rto_by_id id tenant t = find_one (λ r. (r.id == id) && (r.tenant_id == tenant)) t.rtos

abbrev pub set_rto_status : ℕ → ℕ → ℕ → RtoStatus → Option Text → Call (Unit {0})
set_rto_status now id tenant status awb = do
  rto ← or_throw (← gets (rto_by_id id tenant)) rto_not_found
  modify (update_rto rto.id (save_params now status awb))
  if is_returned status then receive_back rto else pure tt

-- `updateRtoStatus`, of a status that is one
unfoldable pub update_rto_status : ℕ → ℕ → ℕ → RtoStatus → Option Text → Call (Unit {0})
update_rto_status now id tenant status awb =
    own_transaction (set_rto_status now id tenant status awb)
