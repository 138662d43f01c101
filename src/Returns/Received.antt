-- ===== src/Returns/Received.antt =====
-- A return that has come back.
use saas_frontend.Base.{
  ℕ, ◌≡◌, refl, ap, sym, ◌∙◌, subst, ◌&&◌, Option, none, some, ◌∷◌, Result, ok, arith, ◌==◌,
  if◌then◌else◌, ==_iff, find_one, find_one-update_where, find_one-update_where_out, Bool-cases,
  inl, inr,
}
use saas_frontend.Base.Text.{Text}
use saas_frontend.Status.Shipments.{cancelled, same_status, same_status_sound, manual}
use saas_frontend.Shipping.{Shipment}
use saas_frontend.Tracking.Twice.{updated}
use saas_frontend.Returns.Words.{rto_delivered}
use saas_frontend.Returns.Defs.{
  Returns, RtoRecord, Error, close, shipment_of, open_ndr, is_open_for, resolved_rto, update_rto,
  set_cancelled, log_cancelled,
}
use saas_frontend.Returns.Actions.{
  rto_by_id, resolve_ndrs, receive_back, save_params, set_rto_status, update_rto_status,
}

-- What the last status of a return leaves.
abbrev pub IsBack : ℕ → ℕ → ℕ → RtoRecord → Shipment → Returns → Returns → Type 0
IsBack now id tenant rto sh t t' =
    (open_ndr rto.shipment_id t' ≡ none)
    × ((s : Shipment) × (shipment_of rto.shipment_id t' ≡ some s) × (s.status ≡ cancelled))
    × (t'.feed.history
        ≡ record {
          shipment_id = sh.id;
          old_status = some sh.status;
          new_status = cancelled;
          source = manual;
        }
          ∷ t.feed.history)
    × (r : RtoRecord) × (rto_by_id id tenant t' ≡ some r)
    × (r.status ≡ rto_delivered)
    × (r.received_at_warehouse_at ≡ some now)

receive_back-ok :
    (rto : RtoRecord) (sh : Shipment) (t : Returns)
    → shipment_of rto.shipment_id t ≡ some sh
    → receive_back rto t ≡ (
      ok tt,
      log_cancelled sh manual (
          (if same_status sh.status cancelled then (λ u. u) else set_cancelled sh)
            (resolve_ndrs rto.shipment_id t)),
    )
receive_back-ok rto sh t there = ground (arith, there)

update_rto_status-ok :
    (now id tenant : ℕ) (awb : Option Text) (rto : RtoRecord) (t : Returns)
    → rto_by_id id tenant t ≡ some rto
    → update_rto_status now id tenant rto_delivered awb t
      ≡ close t (receive_back rto (update_rto rto.id (save_params now rto_delivered awb) t))
unfolding update_rto_status
update_rto_status-ok now id tenant awb rto t found = rw (set_rto_status, found) refl

-- A return that the seller marks as delivered, whatever its status and that of the shipment were:
-- it gets the time, the shipment is cancelled, also one that was delivered, the history records that,
-- and the shipment has no open failed delivery.
pub update_rto_status-IsBack :
    (now id tenant : ℕ) (awb : Option Text) (rto : RtoRecord) (sh : Shipment) (t : Returns)
    → rto_by_id id tenant t ≡ some rto
    → shipment_of rto.shipment_id t ≡ some sh
    → let (r, t') = update_rto_status now id tenant rto_delivered awb t in
      (r ≡ ok tt) × IsBack now id tenant rto sh t t'
update_rto_status-IsBack now id tenant awb rto sh t found there =
    let saved : Returns = update_rto rto.id (save_params now rto_delivered awb) t in
    let closed : Returns = resolve_ndrs rto.shipment_id saved in
    let went : update_rto_status now id tenant rto_delivered awb t ≡ (
      ok tt,
      log_cancelled sh manual
          ((if same_status sh.status cancelled then (λ u. u) else set_cancelled sh) closed),
    ) =
      update_rto_status-ok now id tenant awb rto t found
      ∙ ap (close t) (receive_back-ok rto sh saved there) in
    let none_open : find_one (is_open_for rto.shipment_id) closed.ndrs ≡ none =
      find_one-update_where_out (is_open_for rto.shipment_id)
        (λ r. record r { status = resolved_rto }) t.ndrs (λ y. ground arith) in
    let row : rto_by_id id tenant saved ≡ some (save_params now rto_delivered awb rto) =
      find_one-update_where (λ (r : RtoRecord). (r.id == id) && (r.tenant_id == tenant))
        (λ (r : RtoRecord). r.id == rto.id) (save_params now rto_delivered awb) t.rtos {x = rto}
        (λ y. ground arith) found
      ∙ ground (arith, ==_iff rto.id rto.id) in
    let stamped : ((save_params now rto_delivered awb rto).status ≡ rto_delivered)
        × ((save_params now rto_delivered awb rto).received_at_warehouse_at ≡ some now) =
      ground arith in
    subst
      (λ (p : Result Error (Unit {0}) × Returns). (p.0 ≡ ok tt) × IsBack now id tenant rto sh t p.1)
      (sym went)
      (elim (Bool-cases (same_status sh.status cancelled)) [
        | inl ended ↦ rw ended (
          refl,
          (
            none_open,
            (sh, there, same_status_sound sh.status cancelled ended),
            refl,
            _,
            row,
            stamped.0,
            stamped.1,
          ),
        )
        | inr living ↦ rw living (
          refl,
          (
            none_open,
            (
              record sh { status = cancelled },
              updated rto.shipment_id sh cancelled t.feed.shipments there,
              refl,
            ),
            refl,
            _,
            row,
            stamped.0,
            stamped.1,
          ),
        )
      ])
