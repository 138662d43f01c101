-- ===== src/Returns/Resets.antt =====
-- Deliveries that fail one after another, with a request for a new attempt after each.
use saas_frontend.Base.{
  ℕ, ◌≡◌, refl, ap, sym, ◌∙◌, subst, Bool, Option, none, some, List, [], ◌∷◌, arith, ◌==◌, ==_iff,
  find_one, update_where, find_one-none, count_where-none, count_where-update_where, All,
}
use saas_frontend.Base.Text.{Text}
use saas_frontend.Shipping.{Shipment}
use saas_frontend.Tracking.{shipment_by_id, Feed}
use saas_frontend.Returns.Defs.{
  is_for, close, Returns, NdrEvent, Config, shipment_of, open_ndr, rto_of, is_open_for, opened,
  action_taken, reattempt,
}
use saas_frontend.Returns.Detection.{create_ndr, new_ndr, detect_and_process_ndr_or_rto}
use saas_frontend.Returns.Actions.{ActionData, take_ndr_action, ndr_by_id}
use saas_frontend.Returns.Attempts.{Fails, detect-Fails, handle-new}

abbrev pub reattempting : Option Text → ActionData
reattempting notes = record {
  action_type = reattempt;
  notes = notes;
  updated_address_line1 = none;
  updated_phone = none;
}

-- A request for a new attempt, on the open failed delivery if there is one.
abbrev pub request_on : (ℕ → Bool) → ℕ → ℕ → Option Text → Option NdrEvent → Returns → Returns
request_on reaches tenant user notes none t = t
request_on reaches tenant user notes (some n) t =
    (take_ndr_action reaches n.id tenant user (reattempting notes) t).1

-- A scan, and the request after it.
abbrev pub fail_and_request :
    Config → (ℕ → Bool) → Shipment → ℕ → Option Text → ℕ → Returns → Returns
fail_and_request c reaches sh user notes id t =
    let t' = (detect_and_process_ndr_or_rto c id t).1 in
    request_on reaches sh.tenant_id user notes (open_ndr sh.id t') t'

abbrev pub fail_and_request_all :
    Config → (ℕ → Bool) → Shipment → ℕ → Option Text → List ℕ → Returns → Returns
fail_and_request_all c reaches sh user notes [] t = t
fail_and_request_all c reaches sh user notes (id ∷ ids) t =
    fail_and_request_all c reaches sh user notes ids (fail_and_request c reaches sh user notes id t)

-- A shipment as it was, with no open failed delivery and no return.
abbrev pub IsClear : Shipment → Returns → Type 0
IsClear sh t = (shipment_of sh.id t ≡ some sh) × (rto_of sh.id t ≡ none) × (open_ndr sh.id t ≡ none)

request-clears :
    (reaches : ℕ → Bool) (sh : Shipment) (user : ℕ) (notes : Option Text) (n : NdrEvent)
    (ns : List NdrEvent) (t : Returns)
    → t.ndrs ≡ n ∷ ns
    → n.tenant_id ≡ sh.tenant_id
    → n.shipment_id ≡ sh.id
    → n.status ≡ opened
    → shipment_of sh.id t ≡ some sh
    → let t' = (take_ndr_action reaches n.id sh.tenant_id user (reattempting notes) t).1 in
      (t'.ndrs ≡ update_where (λ r. r.id == n.id) (λ r. record r { status = action_taken }) t.ndrs)
      × (t'.rtos ≡ t.rtos)
      × (t'.feed ≡ t.feed)
unfolding take_ndr_action
request-clears reaches sh user notes n ns t first tenant of_sh waiting there =
    let found : ndr_by_id n.id sh.tenant_id t ≡ some n =
      ground (arith, first, tenant, ==_iff n.id n.id, ==_iff sh.tenant_id sh.tenant_id) in
    let located : shipment_of n.shipment_id t ≡ some sh = ap (λ i. shipment_of i t) of_sh ∙ there in
    ground (arith, found, waiting, located)

fail_and_request-IsClear :
    (c : Config) (reaches : ℕ → Bool) (sh : Shipment) (user : ℕ) (notes : Option Text) (id : ℕ)
    (t : Returns)
    → IsClear sh t
    → Fails t.feed sh.id id
    → ((fail_and_request c reaches sh user notes id t).feed ≡ t.feed)
      × IsClear sh (fail_and_request c reaches sh user notes id t)
fail_and_request-IsClear c reaches sh user notes id t (there, free, new) fails =
    let (e, _, _, _, r, _) = fails in
    let u : Returns = create_ndr c e sh r t in
    let n : NdrEvent = new_ndr c e sh r t.next_id in
    let went : (detect_and_process_ndr_or_rto c id t).1 ≡ u =
      ap (λ p. p.1)
        (detect-Fails c sh id t there fails ∙ ap (close t) (handle-new c e sh r t new)) in
    let head : open_ndr sh.id u ≡ some n = ground (arith, ==_iff sh.id sh.id) in
    let asked : fail_and_request c reaches sh user notes id t
        ≡ (take_ndr_action reaches n.id sh.tenant_id user (reattempting notes) u).1 =
      ap (λ v. request_on reaches sh.tenant_id user notes (open_ndr sh.id v) v) went
      ∙ ap (λ o. request_on reaches sh.tenant_id user notes o u) head in
    let (ndrs, rtos, feed) =
      request-clears reaches sh user notes n t.ndrs u refl refl refl refl there in
    let shut =
      count_where-update_where (is_open_for sh.id) (λ (x : NdrEvent). x.id == n.id)
        (λ x. record x { status = action_taken }) t.ndrs (λ y w o. ground arith) in
    let rows : List NdrEvent =
      update_where (λ x. x.id == n.id) (λ x. record x { status = action_taken }) (n ∷ t.ndrs) in
    let none_open : find_one (is_open_for sh.id) rows ≡ none =
      find_one-none (is_open_for sh.id) rows
        (ground (arith, ==_iff n.id n.id, shut, count_where-none (is_open_for sh.id) t.ndrs new)) in
    subst (λ v. (v.feed ≡ t.feed) × IsClear sh v) (sym asked)
      (
        feed,
        (
          ap (λ (f : Feed). shipment_by_id sh.id f) feed ∙ there,
          ap (find_one (is_for sh.id)) rtos ∙ free,
          ap (find_one (is_open_for sh.id)) ndrs ∙ none_open,
        ),
      )

-- If the seller asks for a new attempt after each failed delivery, then however many fail, and
-- whatever the threshold, no return starts: the shipment stays as it was, with no open failed
-- delivery, as the attempts are counted on open ones alone.
pub fail_and_request_all-IsClear :
    (c : Config) (reaches : ℕ → Bool) (sh : Shipment) (user : ℕ) (notes : Option Text)
    (ids : List ℕ) (t : Returns)
    → IsClear sh t
    → All (Fails t.feed sh.id) ids
    → IsClear sh (fail_and_request_all c reaches sh user notes ids t)
fail_and_request_all-IsClear c reaches sh user notes [] t clear fails = clear
fail_and_request_all-IsClear c reaches sh user notes (id ∷ ids) t clear fails =
    let (kept, clear') = fail_and_request-IsClear c reaches sh user notes id t clear fails.0 in
    fail_and_request_all-IsClear c reaches sh user notes ids _ clear'
      (subst (λ f. All (Fails f sh.id) ids) (sym kept) fails.1)
