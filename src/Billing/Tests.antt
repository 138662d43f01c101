-- ===== src/Billing/Tests.antt =====
-- A bill, the numbers of two documents, and instances of the theorems.
use saas_frontend.Base.{
  ℕ, ◌+◌, ◌*◌, ◌/◌, ◌==◌, ◌≡◌, refl, true, none, some, List, [], ◌∷◌, ok, if◌then◌else◌,
}
use saas_frontend.Base.Int.{pos}
use saas_frontend.Base.Text.{Text, codes}
use saas_frontend.Billing.Tax.{Tax, calculate_tax, is_intra_state, split, TaxArithmetic}
use saas_frontend.Billing.Numbering.{Series, invoice, credit_note, Sequence, generate_next_number}
use saas_frontend.Billing.Numbering.Gapless.{issued, issued-consecutive}
use saas_frontend.Billing.Documents.{
  Config, Invoice, Tables, for_shipment, invoice_of, create_shipment_invoice,
}

abbrev gstin : Text
gstin = codes "33ABCDE1234F1Z5"

abbrev place : Text
place = codes "Tamil Nadu"

-- Halves of odd numbers are rounded up but for 0.29, whose half is 0.145, a little less than the true
-- one.
abbrev doubles : TaxArithmetic
doubles = record {
  product = λ amt rate. (amt * rate + 5000) / 10000;
  half = λ n. if n == 29 then 14 else (n + 1) / 2;
}

-- 18 percent of 0.05 is 0.01, of which each half is 0.01: the bill is 0.07 and not 0.06.
abbrev odd_bill : Tax
odd_bill = record {
  subtotal = 5;
  cgst_amount = 1;
  sgst_amount = 1;
  igst_amount = 0;
  total_amount = 7;
  intra_state = true;
}

odd : calculate_tax doubles place 1800 (some (pos 5)) (some gstin) place ≡ ok odd_bill
unfolding calculate_tax split is_intra_state
odd = refl

-- 18 percent of 1.59 is 0.29, of which each half is 0.14: the bill is 1.87 and not 1.88.
abbrev short_bill : Tax
short_bill = record {
  subtotal = 159;
  cgst_amount = 14;
  sgst_amount = 14;
  igst_amount = 0;
  total_amount = 187;
  intra_state = true;
}

abbrev sequences : List Sequence
sequences = record { financial_year = 2026; series_key = invoice; last_number = 41 } ∷ []

abbrev calls : List (ℕ × Series)
calls = (2026, invoice) ∷ (2026, credit_note) ∷ (2027, invoice) ∷ (2026, invoice) ∷ []

issued-consecutive_example : issued 2026 invoice calls sequences ≡ 42 ∷ 43 ∷ []
issued-consecutive_example = issued-consecutive 2026 invoice calls sequences

abbrev millionth : ℕ
millionth = 1000000

abbrev config : Config
config = record {
  arithmetic = doubles;
  entity_state = place;
  entity_gstin = gstin;
  gst_rate = 1800;
  invoice_prefix = codes "INV";
  year = 2026;
  month = 3;
}

abbrev no_documents : Tables
no_documents = record {
  invoices = [];
  line_items = [];
  credit_notes = [];
  sequences = sequences;
  next_id = 1;
}

abbrev billed : Invoice
billed = record {
  id = 1;
  tenant_id = 1;
  invoice_number = codes "INV/2026-27/000042";
  reference = for_shipment 100;
  tax = odd_bill;
  place_of_supply = place;
}

bills :
    invoice_of 100 (create_shipment_invoice config 1 none 100 (pos 5) no_documents) ≡ some billed
unfolding create_shipment_invoice calculate_tax split is_intra_state generate_next_number
bills = refl
