-- ===== src/Wallet/Payments.antt =====
-- The entries of the ledger that belong to a document of another service.
use saas_frontend.Base.{
  ℕ, ◌+◌, ◌≡◌, refl, ap, sym, ◌∙◌, inl, inr, Bool, true, false, ◌&&◌, Option, none, some, Result,
  ok, err, arith, ◌==◌, ==_iff, if◌then◌else◌, count_where, ◌⊎◌, Bool-cases,
}
use saas_frontend.Base.Int.{ℤ, pos, ◌≤ℤ◌, ◌+ℤ◌}
use saas_frontend.Wallet.Defs.{
  ReferenceType, WalletTxn, WalletRow, Book, Error, post, credit, own_transaction, wallet_of,
}
use mathlib.Core.Option.{some-injective}
use saas_frontend.Wallet.Refund.{credit-ok, wallet_of-Posted}
use saas_frontend.Wallet.Outcome.{credit_cases}

abbrev pub refers_to : ℕ → Option ℕ → Bool
refers_to document none = false
refers_to document (some id) = id == document

-- How often a document of a kind stands in the ledger.
abbrev pub entries : (ReferenceType → Bool) → ℕ → Book → ℕ
entries kind document b =
    count_where (λ (e : WalletTxn). kind e.reference_type && refers_to document e.reference_id)
      b.ledger

-- A credit in a transaction of its own adds one entry for its document, or fails and adds none; no
-- other document gets one.
pub credit-entries :
    (kind : ReferenceType → Bool) (document tenant id : ℕ) (amount : Option ℤ) (ref : ReferenceType)
    (by : Option ℕ) (b : Book)
    → kind ref ≡ true
    → let (r, b') = own_transaction (credit tenant amount ref (some id) by) b in
      ((new : ℤ) × (r ≡ ok new)
        × (entries kind document b' ≡ entries kind document b + (if id == document then 1 else 0)))
      ⊎ ((e : Error) × (r ≡ err e) × (entries kind document b' ≡ entries kind document b))
unfolding own_transaction post
credit-entries kind document tenant id amount ref by b is_kind =
    elim (credit_cases tenant ref (some id) by b amount) [
      | inl p ↦
          rw (own_transaction, p.result)
            (inl (
              p.new_balance,
              refl,
              elim (Bool-cases (id == document)) [
                | inl hit ↦ ground (arith, is_kind, hit)
                | inr miss ↦ ground (arith, is_kind, miss)
              ],
            ))
      | inr (e, refused) ↦ rw (own_transaction, refused) (inr (e, refl, refl))
    ]

-- A credit of a wallet that exists, in a transaction of its own: the wallet holds the amount more,
-- and the document has one entry more.
pub credit_pays :
    (kind : ReferenceType → Bool) (tenant id : ℕ) (amt : ℤ) (ref : ReferenceType) (by : Option ℕ)
    (b : Book) (w : WalletRow)
    → kind ref ≡ true
    → wallet_of tenant b ≡ some w
    → pos 1 ≤ℤ amt
    → let (r, b') = own_transaction (credit tenant (some amt) ref (some id) by) b in
      (r ≡ ok (w.balance +ℤ amt))
      × (wallet_of tenant b' ≡ some (record w { balance = w.balance +ℤ amt }))
      × (entries kind id b' ≡ entries kind id b + 1)
unfolding own_transaction post
credit_pays kind tenant id amt ref by b w is_kind found positive =
    let paid = credit-ok tenant amt ref (some id) by b w found positive in
    elim (credit_cases tenant ref (some id) by b (some amt)) [
      | inl p ↦
          let row : p.wallet ≡ w = some-injective p.wallet w (sym p.found ∙ found) in
          let same : amt ≡ p.amt = some-injective amt p.amt p.parsed in
          let sum : p.new_balance ≡ w.balance +ℤ amt = rw (p.moved, row, same) refl in
          let held = wallet_of-Posted b p in
          rw (own_transaction, p.result)
            (ap ok sum, held ∙ ap some (rw (row, sum) refl), ground (arith, is_kind, ==_iff id id))
      | inr (e, refused) ↦ absurd (cc (paid, ap (λ (z : Result Error ℤ × Book). z.0) refused))
    ]
