-- ===== src/Wallet/Defs.antt =====
-- The wallet tables, and the operations on them.
use saas_frontend.Base.{
  ℕ, ◌+◌, Bool, true, false, ◌&&◌, Option, none, some, List, [], ◌∷◌, ok, err, Action, pure, throw,
  gets, or_throw, throw_if, modify, ◌>>=◌, ◌>>◌, ◌==◌, if◌then◌else◌,
}
use saas_frontend.Base.Int.{ℤ, pos, ◌+ℤ◌, ◌-ℤ◌, ltb_ℤ, leb_ℤ}
use saas_frontend.Base.{find_one, update_where}

pub record WalletRow : Type 0 where
  pub id : ℕ
  pub tenant_id : ℕ
  pub balance : ℤ
  pub low_balance_threshold : ℤ

-- `ENUM('credit', 'debit')`
pub data TxnType : Type 0 where
  credit_type debit_type : TxnType

-- The values of `reference_type` that the services pass.
pub data ReferenceType : Type 0 where
  shipment_debit shipment_refund cod_remittance weight_dispute_reversal : ReferenceType
  subscription_debit recharge manual_credit freight_debit : ReferenceType

-- A row of the append-only ledger.
pub record WalletTxn : Type 0 where
  pub id : ℕ
  pub wallet_id : ℕ
  pub tenant_id : ℕ
  pub type : TxnType
  pub amount : ℤ
  pub balance_after : ℤ
  pub reference_type : ReferenceType
  pub reference_id : Option ℕ
  pub performed_by : Option ℕ

-- What a call leaves outside the tables of its transaction: audit rows, which are written on their
-- own, events on the bus, and work put off by `setImmediate`.
pub data Effect : Type 0 where
  audit_recharge_completed : ℕ → Option ℕ → ℕ → ℤ → ReferenceType → ℤ → Effect
  audit_wallet_debit : ℕ → Option ℕ → ℕ → ℤ → ReferenceType → ℤ → Effect
  low_balance : ℕ → ℤ → ℤ → Effect
  freight_invoice : ℕ → ℕ → ℤ → Effect

-- The newest entries stand first.
pub record Book : Type 0 where
  pub wallets : List WalletRow
  pub ledger : List WalletTxn
  pub next_id : ℕ
  pub effects : List Effect

pub data Error : Type 0 where
  credit_not_positive debit_not_positive rate_quote_required : Error
  wallet_not_found insufficient_balance : Error

abbrev pub Call : Type 0 → Type 0
Call A = Action Book Error A

-- `parseFloat(amount)`, and `isNaN(amt) || amt <= 0`, with the error of the caller
abbrev pub positive_amount : Error → Option ℤ → Call ℤ
positive_amount e none = throw e
positive_amount e (some amt) = if leb_ℤ amt (pos 0) then throw e else pure amt

-- `Wallet.findOne({ where: { tenant_id } })`
abbrev pub wallet_of : ℕ → Book → Option WalletRow
wallet_of tenant b = find_one (λ w. w.tenant_id == tenant) b.wallets

-- `WalletTransaction.create` and `wallet.update({ balance })`
unfoldable pub post :
    TxnType → WalletRow → ℤ → ℤ → ReferenceType → Option ℕ → Option ℕ → Book → Book
post type wallet amt new_balance ref ref_id by b = record b {
  wallets =
      update_where (λ w. w.id == wallet.id) (λ w. record w { balance = new_balance }) b.wallets;
  ledger =
      record {
        id = b.next_id;
        wallet_id = wallet.id;
        tenant_id = wallet.tenant_id;
        type = type;
        amount = amt;
        balance_after = new_balance;
        reference_type = ref;
        reference_id = ref_id;
        performed_by = by;
      }
      ∷ b.ledger;
  next_id = b.next_id + 1;
}

abbrev pub leave : (List Effect → List Effect) → Call (Unit {0})
leave f = modify (λ b. record b { effects = f b.effects })

-- A call with a transaction of its own: `rollback` takes back the tables, and not what was written
-- outside the transaction.
unfoldable pub own_transaction : {A : Type 0} → Call A → Call A
own_transaction m b =
    let (r, b') = m b in
    elim r [ ok a ↦ (ok a, b') | err e ↦ (err e, record b { effects = b'.effects }) ]

-- `credit`, within the caller's transaction.
unfoldable pub credit : ℕ → Option ℤ → ReferenceType → Option ℕ → Option ℕ → Call ℤ
unfolding post
credit tenant amount ref ref_id by = do
  amt ← positive_amount credit_not_positive amount
  wallet ← or_throw (← gets (wallet_of tenant)) wallet_not_found
  let new_balance = wallet.balance +ℤ amt
  txn_id ← gets (λ b. b.next_id)
  modify (post credit_type wallet amt new_balance ref ref_id by)
  leave (◌∷◌ (audit_recharge_completed tenant by txn_id amt ref new_balance))
  pure new_balance

-- Step 5 of `debit`, and `onLowBalance`.
abbrev pub alert_low_balance : ℕ → WalletRow → ℤ → List Effect → List Effect
alert_low_balance tenant wallet new_balance es =
    if ltb_ℤ new_balance wallet.low_balance_threshold
    then low_balance tenant new_balance wallet.low_balance_threshold ∷ es
    else es

-- The invoice of a `freight_debit` is made after the call.
abbrev pub invoice_freight : ReferenceType → ℕ → ℕ → ℤ → List Effect → List Effect
invoice_freight freight_debit txn_id tenant amt es = freight_invoice txn_id tenant amt ∷ es
invoice_freight _ txn_id tenant amt es = es

-- `debit`, within the caller's transaction.
unfoldable pub debit : ℕ → Option ℤ → ReferenceType → Option ℕ → Option ℕ → Call ℤ
unfolding post
debit tenant amount ref ref_id by = do
  amt ← positive_amount debit_not_positive amount
  wallet ← or_throw (← gets (wallet_of tenant)) wallet_not_found
  throw_if (ltb_ℤ wallet.balance amt) insufficient_balance
  let new_balance = wallet.balance -ℤ amt
  txn_id ← gets (λ b. b.next_id)
  modify (post debit_type wallet amt new_balance ref ref_id by)
  leave (◌∷◌ (audit_wallet_debit tenant by txn_id amt ref new_balance))
  leave (alert_low_balance tenant wallet new_balance)
  leave (invoice_freight ref txn_id tenant amt)
  pure new_balance

-- `checkBalanceForShipment`
unfoldable pub check_balance_for_shipment : ℕ → Option ℤ → Call WalletRow
check_balance_for_shipment tenant amount = do
  amt ← positive_amount rate_quote_required amount
  wallet ← or_throw (← gets (wallet_of tenant)) wallet_not_found
  throw_if (ltb_ℤ wallet.balance amt) insufficient_balance
  pure wallet

-- `WalletTransaction.sum('amount', { where: { wallet_id, type } })`
abbrev pub type_eq : TxnType → TxnType → Bool
type_eq credit_type credit_type = true
type_eq debit_type debit_type = true
type_eq _ _ = false

abbrev pub sum_amount : ℕ → TxnType → List WalletTxn → ℤ
sum_amount wallet type [] = pos 0
sum_amount wallet type (t ∷ ts) =
    (if (t.wallet_id == wallet) && type_eq t.type type then t.amount else pos 0)
    +ℤ sum_amount wallet type ts

-- `reconcileWalletBalance`: the cached balance is computed anew from the ledger.
unfoldable pub reconcile_wallet_balance : ℕ → Book → ℤ × Book
reconcile_wallet_balance wallet_id b = elim (find_one (λ w. w.id == wallet_id) b.wallets) [
  | none ↦ (pos 0, b)
  | some wallet ↦
      let computed =
        sum_amount wallet_id credit_type b.ledger -ℤ sum_amount wallet_id debit_type b.ledger in
      (
        computed,
        record b {
          wallets =
              update_where (λ w. w.id == wallet.id) (λ w. record w { balance = computed })
                b.wallets;
        },
      )
]
