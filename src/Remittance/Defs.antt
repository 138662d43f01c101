-- ===== src/Remittance/Defs.antt =====
-- The batches, `createBatch` and `processBatch`. Amounts are numbers of paise.
use saas_frontend.Base.{
  ℕ, ◌+◌, Bool, true, false, Option, none, some, List, ◌∷◌, ◌++◌, Result, ok, err, ◌==◌,
  if◌then◌else◌, find_one, update_where,
}
use saas_frontend.Base.Int.{ℤ, pos, negsuc, ◌-ℤ◌, ltb_ℤ}
use saas_frontend.Base.Text.{Text, codes}
use saas_frontend.Wallet
use saas_frontend.Wallet.{Book, cod_remittance, credit, own_transaction}

-- `ENUM` of the column `remittance_mode`
pub data Mode : Type 0 where
  wallet_credit bank_payout : Mode

-- `ENUM` of the column `status`
pub data BatchStatus : Type 0 where
  pending processing completed failed : BatchStatus

-- `batch_reference` is the time at which it was made.
pub record Batch : Type 0 where
  pub id : ℕ
  pub seller_id : ℕ
  pub shipment_ids : List ℕ
  pub gross_cod_amount : ℤ
  pub platform_fee_deducted : ℤ
  pub net_amount : ℤ
  pub remittance_mode : Mode
  pub batch_reference : ℕ
  pub payout_reference : Option Text
  pub status : BatchStatus
  pub completed_at : Option ℕ

-- The audit row, with the seller, the user, the batch and the amount, and the events on the bus.
pub data Effect : Type 0 where
  audit_processed : ℕ → ℕ → ℕ → ℤ → Effect
  remittance_completed : ℕ → ℕ → Effect
  remittance_failed : ℕ → ℕ → Wallet.Error → Effect

pub record Remittances : Type 0 where
  pub book : Book
  pub batches : List Batch
  pub next_id : ℕ
  pub effects : List Effect

pub data Error : Type 0 where
  balance_mismatch batch_not_found : Error
  wallet_error : Wallet.Error → Error

-- The data of a request.
pub record Request : Type 0 where
  pub seller_id : ℕ
  pub shipment_ids : List ℕ
  pub gross_amount : ℤ
  pub platform_fee : ℤ
  pub remittance_mode : Mode

-- `Math.abs(gross - fee - net) > 0.01`
abbrev pub is_off : ℤ → ℤ → ℤ → Bool
is_off gross fee net =
    let rest = (gross -ℤ fee) -ℤ net in if ltb_ℤ (pos 1) rest then true else ltb_ℤ rest (negsuc 0)

-- `createBatch`
unfoldable pub create_batch : ℕ → Request → Remittances → Result Error Batch × Remittances
create_batch now q t =
    let net = q.gross_amount -ℤ q.platform_fee in
    let batch : Batch = record {
      id = t.next_id;
      seller_id = q.seller_id;
      shipment_ids = q.shipment_ids;
      gross_cod_amount = q.gross_amount;
      platform_fee_deducted = q.platform_fee;
      net_amount = net;
      remittance_mode = q.remittance_mode;
      batch_reference = now;
      payout_reference = none;
      status = pending;
      completed_at = none;
    } in
    if is_off q.gross_amount q.platform_fee net
    then (err balance_mismatch, t)
    else (ok batch, record t { batches = batch ∷ t.batches; next_id = t.next_id + 1 })

abbrev pub batch_by_id : ℕ → Remittances → Option Batch
batch_by_id id t = find_one (λ b. b.id == id) t.batches

-- `batch.update`
abbrev pub update_batch : ℕ → (Batch → Batch) → Remittances → Remittances
update_batch id f t = record t { batches = update_where (λ b. b.id == id) f t.batches }

-- `batch.status === 'completed' || batch.status === 'processing'`
abbrev pub is_taken : BatchStatus → Bool
is_taken completed = true
is_taken processing = true
is_taken _ = false

-- `simulateBankPayout`, which always pays; the random part of its answer is an argument.
abbrev pub simulate_bank_payout : Text → Text
simulate_bank_payout random = codes "pay_ref_" ++ random

-- The balance that a credit returns is not used.
abbrev pub no_reference : Result Wallet.Error ℤ → Result Wallet.Error (Option Text)
no_reference (ok balance) = ok none
no_reference (err e) = err e

-- A credit of the wallet in a transaction of its own, or a payout.
abbrev pub pay_out : Mode → ℕ → Text → Batch → Book → Result Wallet.Error (Option Text) × Book
pay_out bank_payout admin random b book = (ok (some (simulate_bank_payout random)), book)
pay_out wallet_credit admin random b book =
    let (r, book') =
      own_transaction
        (credit b.seller_id (some b.net_amount) cod_remittance (some b.id) (some admin)) book in
    (no_reference r, book')

abbrev pub complete : ℕ → Option Text → Batch → Batch
complete now none b = record b { status = completed; completed_at = some now }
complete now (some reference) b = record b {
  status = completed;
  payout_reference = some reference;
  completed_at = some now;
}

-- What follows the payment.
abbrev pub close :
    ℕ
    → ℕ
    → Batch
    → Remittances
    → Result Wallet.Error (Option Text) × Book
    → Result Error Batch × Remittances
close now admin b t (ok reference, book) = (
  ok (complete now reference b),
  record (update_batch b.id (complete now reference) (record t { book = book })) {
    effects =
        remittance_completed b.id b.seller_id
        ∷ audit_processed b.seller_id admin b.id b.net_amount
        ∷ t.effects;
  },
)
close now admin b t (err e, book) = (
  err (wallet_error e),
  record (update_batch b.id (λ r. record r { status = failed }) (record t { book = book })) {
    effects = remittance_failed b.id b.seller_id e ∷ t.effects;
  },
)

-- The part of `processBatch` that follows its test of the status, for the row that it read. No lock
-- is held on that row, and no transaction is open.
unfoldable pub carry_out : ℕ → ℕ → Text → Batch → Remittances → Result Error Batch × Remittances
carry_out now admin random b t =
    let t' = update_batch b.id (λ r. record r { status = processing }) t in
    close now admin b t' (pay_out b.remittance_mode admin random b t'.book)

-- `processBatch`
unfoldable pub process_batch : ℕ → ℕ → Text → ℕ → Remittances → Result Error Batch × Remittances
unfolding carry_out
process_batch now admin random id t = elim (batch_by_id id t) [
  | none ↦ (err batch_not_found, t)
  | some b ↦ if is_taken b.status then (ok b, t) else carry_out now admin random b t
]
