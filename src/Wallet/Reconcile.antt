-- ===== src/Wallet/Reconcile.antt =====
-- `reconcileWalletBalance` against the books: it repairs a wallet whose cached balance is off, and
-- changes nothing on books that are in order.
use saas_frontend.Base.{
  ℕ, ◌≡◌, refl, true, some, List, [], ◌∷◌, arith, ◌==◌, ==_iff, ap, ◌∙◌, Bool-cases, inl, inr,
}
use saas_frontend.Base.Int.{ℤ}
use saas_frontend.Base.{
  find_one, update_where, All, find_one-All, find_one-holds, map-All, find_one-update_where,
}
use saas_frontend.Wallet.Defs.{WalletRow, Book, reconcile_wallet_balance}
use saas_frontend.Wallet.Ledger.{ledger_balance, RowIsValid, IsValid}

rewrite_same :
    (id : ℕ) (v : ℤ) (ws : List WalletRow)
    → All (λ w. (w.id == id) ≡ true → w.balance ≡ v) ws
    → update_where (λ w. w.id == id) (λ w. record w { balance = v }) ws ≡ ws
rewrite_same id v [] h = refl
rewrite_same id v (w ∷ ws) h = elim (Bool-cases (w.id == id)) [
  | inl hit ↦ ground (arith, hit, rewrite_same id v ws h.1, h.0 hit)
  | inr miss ↦ rw miss (ap (◌∷◌ w) (rewrite_same id v ws h.1))
]

-- Whatever the cached balance was, a reconciled wallet that exists holds what its ledger says, its
-- other columns as they were, and the ledger is not touched.
pub reconcile_repairs :
    (id : ℕ) (b : Book) (w : WalletRow)
    → find_one (λ r. r.id == id) b.wallets ≡ some w
    → let (computed, b') = reconcile_wallet_balance id b in
      (computed ≡ ledger_balance id b.ledger)
      × (find_one (λ r. r.id == id) b'.wallets
          ≡ some (record w { balance = ledger_balance id b.ledger }))
      × (b'.ledger ≡ b.ledger)
unfolding reconcile_wallet_balance
reconcile_repairs id b w found =
    rw (found, reconcile_wallet_balance)
      (
        refl,
        find_one-update_where (λ r. r.id == id) (λ r. r.id == w.id) _ b.wallets {x = w} (λ y. refl)
              found
            ∙ ground (arith, ==_iff w.id w.id),
        refl,
      )

-- On books that are in order a reconciliation reports the cached balance and changes nothing.
pub reconcile-IsValid :
    (id : ℕ) (b : Book) (w : WalletRow)
    → IsValid b
    → find_one (λ r. r.id == id) b.wallets ≡ some w
    → reconcile_wallet_balance id b ≡ (w.balance, b)
unfolding reconcile_wallet_balance
reconcile-IsValid id b w valid found =
    rw (found, reconcile_wallet_balance)
      (ground (
        arith,
        (find_one-All (RowIsValid b.ledger) _ b.wallets found valid).0.1,
        same,
        rewrite_same w.id w.balance b.wallets (
            map-All (RowIsValid b.ledger) _ b.wallets
              (λ r h hit.
                ground (
                  arith,
                  h.1,
                  hit,
                  (find_one-All (RowIsValid b.ledger) _ b.wallets found valid).0.1,
                ))
              valid),
      ))
  where
    same : w.id ≡ id
    same = (==_iff w.id id).0 (find_one-holds (λ r. r.id == id) b.wallets found)
