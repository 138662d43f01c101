-- ===== src/Billing/Once.antt =====
-- A shipment is billed once, and credited once.
use saas_frontend.Base.{ℕ, ◌≡◌, ◌⊎◌, inl, inr, Option, some, arith, Option-cases}
use saas_frontend.Base.Int.{ℤ, pos}
use saas_frontend.Base.Text.{Text}
use saas_frontend.Billing.Tax.{calculate_tax}
use saas_frontend.Billing.Numbering.{generate_next_number}
use saas_frontend.Billing.Documents.{
  Config, Invoice, CreditNote, Tables, invoice_of, credit_note_of, create_shipment_invoice,
  create_cancellation_credit_note,
}

-- A booking with a rate that is not negative leaves the shipment with an invoice, and no later call
-- for that shipment changes a row, whatever its rate, tenant and settings.
pub create_shipment_invoice_once :
    (config config' : Config) (tenant tenant' : ℕ) (state state' : Option Text) (shipment amt : ℕ)
    (rate : ℤ) (t : Tables)
    → let t' = create_shipment_invoice config tenant state shipment (pos amt) t in
      ((inv : Invoice) × (invoice_of shipment t' ≡ some inv))
      × (create_shipment_invoice config' tenant' state' shipment rate t' ≡ t')
unfolding create_shipment_invoice calculate_tax generate_next_number
create_shipment_invoice_once config config' tenant tenant' state state' shipment amt rate t =
    elim (Option-cases (invoice_of shipment t)) [
      | inl missing ↦
          elim (Option-cases (
            invoice_of shipment
              (create_shipment_invoice config tenant state shipment (pos amt) t))) [
                | inl lost ↦ absurd (ground arith)
                | inr (inv, found) ↦ ((inv, found), ground arith)
              ]
      | inr (inv, found) ↦ ((inv, ground arith), ground arith)
    ]

-- The cancellation of a shipment that has an invoice leaves the invoice with a credit note, which is
-- over its whole total where there was none before, and no later call for that shipment changes a row.
pub create_cancellation_credit_note_once :
    (config config' : Config) (shipment : ℕ) (inv : Invoice) (t : Tables)
    → invoice_of shipment t ≡ some inv
    → let t' = create_cancellation_credit_note config shipment t in
      ((c : CreditNote) × (credit_note_of inv.id t' ≡ some c)
        × ((credit_note_of inv.id t ≡ some c) ⊎ (c.amount ≡ inv.tax.total_amount)))
      × (create_cancellation_credit_note config' shipment t' ≡ t')
unfolding create_cancellation_credit_note generate_next_number
create_cancellation_credit_note_once config config' shipment inv t found =
    elim (Option-cases (credit_note_of inv.id t)) [
      | inl missing ↦
          elim (Option-cases
            (credit_note_of inv.id (create_cancellation_credit_note config shipment t))) [
              | inl lost ↦ absurd (ground arith)
              | inr (c, credited) ↦ ((c, credited, inr (ground arith)), ground arith)
            ]
      | inr (c, credited) ↦ ((c, ground arith, inl credited), ground arith)
    ]
