-- ===== src/Wallet/Ledger.antt =====
-- The invariant that ties the cached balances to the ledger, under `credit` and `debit`.
use saas_frontend.Base.{
  ℕ, ◌≡◌, refl, Option, List, [], ◌∷◌, Result, inl, inr, arith, ◌==◌, if◌then◌else◌, Bool-cases,
}
use saas_frontend.Base.Int.{ℤ, pos, ◌+ℤ◌, ◌-ℤ◌, ◌≤ℤ◌, int_laws}
use saas_frontend.Base.{All, find_one-All, update_where-All}
use saas_frontend.Wallet.Outcome.{signed, Posted, credit_cases, debit_cases}
use saas_frontend.Wallet.Defs.{
  WalletRow, WalletTxn, TxnType, credit_type, debit_type, ReferenceType, Book, Error, post, credit,
  debit, sum_amount,
}

-- The balance that the ledger gives a wallet.
abbrev pub ledger_balance : ℕ → List WalletTxn → ℤ
ledger_balance wallet ts = sum_amount wallet credit_type ts -ℤ sum_amount wallet debit_type ts

-- No balance is negative, and each is what the ledger says.
abbrev pub RowIsValid : List WalletTxn → WalletRow → Type 0
RowIsValid ts w = (pos 0 ≤ℤ w.balance) × (w.balance ≡ ledger_balance w.id ts)

abbrev pub IsValid : Book → Type 0
IsValid b = All (RowIsValid b.ledger) b.wallets

ledger_balance-cons :
    (wallet : ℕ) (type : TxnType) (t : WalletTxn) (ts : List WalletTxn)
    → t.type ≡ type
    → ledger_balance wallet (t ∷ ts) ≡ (
        ledger_balance wallet ts +ℤ (if t.wallet_id == wallet then signed type t.amount else pos 0))
ledger_balance-cons wallet credit_type t ts e = rw e (elim (Bool-cases (t.wallet_id == wallet)) [
  | inl hit ↦ rw hit (omega int_laws)
  | inr miss ↦ rw miss (omega int_laws)
])
ledger_balance-cons wallet debit_type t ts e = rw e (elim (Bool-cases (t.wallet_id == wallet)) [
  | inl hit ↦ rw hit (omega int_laws)
  | inr miss ↦ rw miss (omega int_laws)
])

+ℤ_zero : (a : ℤ) → a +ℤ pos 0 ≡ a
+ℤ_zero a = omega int_laws

-- An entry with the balance that it leaves behind keeps the books in order.
pub post-IsValid :
    (type : TxnType) (wallet : WalletRow) (amt new : ℤ) (ref : ReferenceType) (ref_id by : Option ℕ)
    (b : Book)
    → IsValid b
    → RowIsValid b.ledger wallet
    → pos 0 ≤ℤ new
    → new ≡ wallet.balance +ℤ signed type amt
    → IsValid (post type wallet amt new ref ref_id by b)
unfolding post
post-IsValid type wallet amt new ref ref_id by b valid row nonneg e =
    update_where-All (RowIsValid b.ledger)
      (RowIsValid (post type wallet amt new ref ref_id by b).ledger) (λ w. w.id == wallet.id) _
      b.wallets
      (λ w h hit.
        (nonneg, ground (arith, hit, ledger_balance-cons w.id type (entry) b.ledger refl)))
      (λ w h miss. (
        h.0,
        ground (
          arith,
          miss,
          ledger_balance-cons w.id type entry b.ledger refl,
          +ℤ_zero (ledger_balance w.id b.ledger),
        ),
      ))
      valid
  where
    entry : WalletTxn
    entry = record {
      id = b.next_id;
      wallet_id = wallet.id;
      tenant_id = wallet.tenant_id;
      type = type;
      amount = amt;
      balance_after = new;
      reference_type = ref;
      reference_id = ref_id;
      performed_by = by;
    }

Posted-IsValid :
    {type : TxnType} {tenant : ℕ} {amount : Option ℤ} {ref : ReferenceType} {ref_id by : Option ℕ}
    (b : Book) {r : Result Error ℤ × Book}
    → IsValid b
    → Posted type tenant amount ref ref_id by b r
    → IsValid r.1
Posted-IsValid {type} {ref = ref} {ref_id = ref_id} {by = by} b valid p = rw p.result (
    post-IsValid type p.wallet p.amt p.new_balance ref ref_id by b valid row (p.covered row.0)
      p.moved)
  where
    row : RowIsValid b.ledger p.wallet
    row = (find_one-All (RowIsValid b.ledger) _ b.wallets p.found valid).0

module _ (tenant : ℕ) (amount : Option ℤ) (ref : ReferenceType) (ref_id by : Option ℕ) (b : Book)
    (valid : IsValid b) where
  pub credit-IsValid : IsValid (credit tenant amount ref ref_id by b).1
  credit-IsValid = elim (credit_cases tenant ref ref_id by b amount) [
    | inl p ↦ Posted-IsValid b valid p
    | inr (e, refused) ↦ rw refused valid
  ]

  -- A debit never takes a balance below zero.
  pub debit-IsValid : IsValid (debit tenant amount ref ref_id by b).1
  debit-IsValid = elim (debit_cases tenant ref ref_id by b amount) [
    | inl p ↦ Posted-IsValid b valid p
    | inr (e, refused) ↦ rw refused valid
  ]

-- The services' calls of the wallet, in the order in which they take the row's lock.
pub data Op : Type 0 where
  credits debits : ℕ → Option ℤ → ReferenceType → Option ℕ → Option ℕ → Op

abbrev pub apply : Op → Book → Book
apply (credits tenant amount ref ref_id by) b = (credit tenant amount ref ref_id by b).1
apply (debits tenant amount ref ref_id by) b = (debit tenant amount ref ref_id by b).1

abbrev pub run : List Op → Book → Book
run [] b = b
run (op ∷ ops) b = run ops (apply op b)

-- After any sequence of credits and debits on books that are in order, refused ones included, no
-- balance is negative and each balance is the ledger's credits less its debits.
pub run-IsValid : (ops : List Op) (b : Book) → IsValid b → IsValid (run ops b)
run-IsValid [] b valid = valid
run-IsValid (credits tenant amount ref ref_id by ∷ ops) b valid =
    run-IsValid ops _ (credit-IsValid tenant amount ref ref_id by b valid)
run-IsValid (debits tenant amount ref ref_id by ∷ ops) b valid =
    run-IsValid ops _ (debit-IsValid tenant amount ref ref_id by b valid)
