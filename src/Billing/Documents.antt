-- ===== src/Billing/Documents.antt =====
-- The invoice of a shipment (`createShipmentInvoice` of backend/src/services/invoice.service.js) and
-- its credit note (`createCancellationCreditNote` of backend/src/services/creditNote.service.js),
-- within the transaction of the caller. The PDF that is made afterwards is not modelled.
use saas_frontend.Base.{
  false, Bool, ℕ, ◌+◌, true, Option, none, some, List, [], ◌∷◌, ok, err, ◌==◌, find_one,
}
use saas_frontend.Base.Int.{pos, ℤ}
use saas_frontend.Base.Text.{Text, codes}
use saas_frontend.Billing.Tax.{TaxArithmetic, Tax, calculate_tax}
use saas_frontend.Billing.Numbering.{Sequence, invoice, credit_note, generate_next_number}

-- What billing reads from the settings, the configuration and the clock.
pub record Config : Type 0 where
  pub arithmetic : TaxArithmetic
  pub entity_state : Text
  pub entity_gstin : Text
  pub gst_rate : ℕ
  pub invoice_prefix : Text
  pub year : ℕ
  pub month : ℕ

-- `reference_type` and `reference_id`; the invoice of a subscription bears `wallet_recharge` and none.
pub data InvoiceReference : Type 0 where
  for_shipment : ℕ → InvoiceReference
  wallet_recharge : InvoiceReference

-- An `Invoice` with its tax split.
pub record Invoice : Type 0 where
  pub id : ℕ
  pub tenant_id : ℕ
  pub invoice_number : Text
  pub reference : InvoiceReference
  pub tax : Tax
  pub place_of_supply : Text

pub record LineItem : Type 0 where
  pub invoice_id : ℕ
  pub unit_price : ℕ
  pub amount : ℕ

pub record CreditNote : Type 0 where
  pub id : ℕ
  pub tenant_id : ℕ
  pub original_invoice_id : ℕ
  pub credit_note_number : Text
  pub amount : ℕ
  pub reference_id : ℕ

pub record Tables : Type 0 where
  pub invoices : List Invoice
  pub line_items : List LineItem
  pub credit_notes : List CreditNote
  pub sequences : List Sequence
  pub next_id : ℕ

abbrev pub is_shipment : ℕ → InvoiceReference → Bool
is_shipment id (for_shipment s) = s == id
is_shipment id wallet_recharge = false

-- `where: { reference_type: 'shipment', reference_id }`
abbrev pub invoice_of : ℕ → Tables → Option Invoice
invoice_of shipment t = find_one (λ i. is_shipment shipment i.reference) t.invoices

abbrev pub credit_note_of : ℕ → Tables → Option CreditNote
credit_note_of inv t = find_one (λ c. c.original_invoice_id == inv) t.credit_notes

-- `tenant.company_state || 'Tamil Nadu'`
abbrev pub place_of_supply : Option Text → Text
place_of_supply none = codes "Tamil Nadu"
place_of_supply (some []) = codes "Tamil Nadu"
place_of_supply (some (c ∷ s)) = c ∷ s

-- Steps 4 to 6, once the tax is known.
abbrev pub insert_invoice : Config → ℕ → InvoiceReference → Text → Tax → Tables → Tables
insert_invoice config tenant reference place tax t =
    let (r, seqs) =
      generate_next_number true config.year config.month invoice (some config.invoice_prefix)
        t.sequences in
    elim r [
      | err e ↦ t
      | ok number ↦ record t {
        invoices =
            record {
              id = t.next_id;
              tenant_id = tenant;
              invoice_number = number;
              reference = reference;
              tax = tax;
              place_of_supply = place;
            }
            ∷ t.invoices;
        line_items =
            record { invoice_id = t.next_id; unit_price = tax.subtotal; amount = tax.subtotal }
            ∷ t.line_items;
        sequences = seqs;
        next_id = t.next_id + 1;
      }
    ]

-- An error ends the invoice and not the caller.
abbrev pub invoice_or_skip : Config → ℕ → InvoiceReference → Text → ℤ → Tables → Tables
invoice_or_skip config tenant reference place rate t =
    elim (calculate_tax config.arithmetic config.entity_state config.gst_rate (some rate)
      (some config.entity_gstin) place) [
        | err e ↦ t
        | ok tax ↦ insert_invoice config tenant reference place tax t
      ]

-- `createShipmentInvoice`: a shipment that has an invoice gets no other.
unfoldable pub create_shipment_invoice : Config → ℕ → Option Text → ℕ → ℤ → Tables → Tables
create_shipment_invoice config tenant company_state shipment rate t = elim (invoice_of shipment t) [
  | some existing ↦ t
  | none ↦
      invoice_or_skip config tenant (for_shipment shipment) (place_of_supply company_state) rate t
]

abbrev pub insert_credit_note : Config → Invoice → ℕ → Tables → Tables
insert_credit_note config inv shipment t =
    let (r, seqs) =
      generate_next_number true config.year config.month credit_note none t.sequences in
    elim r [
      | err e ↦ t
      | ok number ↦ record t {
        credit_notes =
            record {
              id = t.next_id;
              tenant_id = inv.tenant_id;
              original_invoice_id = inv.id;
              credit_note_number = number;
              amount = inv.tax.total_amount;
              reference_id = shipment;
            }
            ∷ t.credit_notes;
        sequences = seqs;
        next_id = t.next_id + 1;
      }
    ]

-- `createCancellationCreditNote`: one credit note for an invoice, over its whole total.
unfoldable pub create_cancellation_credit_note : Config → ℕ → Tables → Tables
create_cancellation_credit_note config shipment t = elim (invoice_of shipment t) [
  | none ↦ t
  | some inv ↦ elim (credit_note_of inv.id t) [
    | some existing ↦ t
    | none ↦ insert_credit_note config inv shipment t
  ]
]

-- `createSubscriptionInvoice` of backend/src/services/planRenewal.service.js, for a price in paise.
unfoldable pub create_subscription_invoice : Config → ℕ → Option Text → ℕ → Tables → Tables
create_subscription_invoice config tenant company_state price t =
    invoice_or_skip config tenant wallet_recharge (place_of_supply company_state) (pos price) t
