-- ===== src/Wallet/Refund.antt =====
-- When a debit goes through, and what a refund of it leaves.
use saas_frontend.Base.{
  ℕ, ◌≡◌, refl, ◌↔◌, Option, some, Result, ok, arith, ◌==◌, ==_iff, ap, ◌∙◌, Bool-cases, inl, inr,
}
use saas_frontend.Base.Int.{ℤ, pos, ◌+ℤ◌, ◌-ℤ◌, ◌≤ℤ◌, int_laws, leb_ℤ, ltb_ℤ}
use saas_frontend.Base.{find_one, find_one-update_where}
use saas_frontend.Wallet.Defs.{
  WalletRow, ReferenceType, Book, Error, credit, debit, wallet_of, post, TxnType, credit_type,
}
use saas_frontend.Wallet.Outcome.{Posted, credit_cases, debit_cases}

-- The wallet of a tenant after an entry is posted to it: the same row with the new balance.
pub wallet_of-Posted :
    {type : TxnType} {tenant : ℕ} {amount : Option ℤ} {ref : ReferenceType} {ref_id by : Option ℕ}
    (b : Book) {r : Result Error ℤ × Book}
    → (p : Posted type tenant amount ref ref_id by b r)
    → wallet_of tenant r.1 ≡ some (record p.wallet { balance = p.new_balance })
unfolding post
wallet_of-Posted {tenant = tenant} b p = rw p.result (
    find_one-update_where (λ w. w.tenant_id == tenant) (λ w. w.id == p.wallet.id) _ b.wallets
      {x = p.wallet} (λ y. refl) p.found
    ∙ ground (arith, ==_iff p.wallet.id p.wallet.id))

-- A debit of a wallet that exists goes through exactly when the amount is positive and covered, and
-- then it returns the balance less the amount.
pub debit-ok_iff :
    (tenant : ℕ) (amt new : ℤ) (ref : ReferenceType) (ref_id by : Option ℕ) (b : Book)
    (w : WalletRow)
    → wallet_of tenant b ≡ some w
    → ((debit tenant (some amt) ref ref_id by b).0 ≡ ok new)
      ↔ ((pos 1 ≤ℤ amt) × (amt ≤ℤ w.balance) × (new ≡ w.balance -ℤ amt))
unfolding debit
debit-ok_iff tenant amt new ref ref_id by b w found = elim (Bool-cases (leb_ℤ amt (pos 0))) [
  | inl bad ↦ (ground arith, λ h. ground arith)
  | inr good ↦ elim (Bool-cases (ltb_ℤ w.balance amt)) [
    | inl short ↦ (ground arith, λ h. ground arith)
    | inr covered ↦ (ground arith, λ h. ground arith)
  ]
]

-- A credit of a wallet that exists goes through with any positive amount.
pub credit-ok :
    (tenant : ℕ) (amt : ℤ) (ref : ReferenceType) (ref_id by : Option ℕ) (b : Book) (w : WalletRow)
    → wallet_of tenant b ≡ some w
    → pos 1 ≤ℤ amt
    → (credit tenant (some amt) ref ref_id by b).0 ≡ ok (w.balance +ℤ amt)
unfolding credit
credit-ok tenant amt ref ref_id by b w found positive = elim (Bool-cases (leb_ℤ amt (pos 0))) [
  | inl bad ↦ ground arith
  | inr good ↦ ground arith
]

-- The refund, on the books that the debit leaves.
refund :
    (tenant : ℕ) (amount : Option ℤ) (ref : ReferenceType) (ref_id by : Option ℕ) (b : Book)
    (w v : WalletRow) (amt new : ℤ)
    → v ≡ w
    → amount ≡ some amt
    → pos 1 ≤ℤ amt
    → new ≡ v.balance +ℤ (pos 0 -ℤ amt)
    → wallet_of tenant b ≡ some (record v { balance = new })
    → let (r, b') = credit tenant amount ref ref_id by b in
      (r ≡ ok w.balance) × (wallet_of tenant b' ≡ some w)
refund tenant amount ref ref_id by b w v amt new same parsed positive moved found =
    let back : new +ℤ amt ≡ w.balance =
      rw (← ap (λ (x : WalletRow). x.balance) same, moved) (omega int_laws) in
    let r : (credit tenant amount ref ref_id by b).0 ≡ ok (new +ℤ amt) =
      rw parsed
        (credit-ok tenant amt ref ref_id by b (record v { balance = new }) found positive) in
    elim (credit_cases tenant ref ref_id by b amount) [
      | inr (x, refused) ↦ absurd (cc (ap (λ (z : Result Error ℤ × Book). z.0) refused))
      | inl p ↦ restored r back p
    ]
  where
    restored :
        (credit tenant amount ref ref_id by b).0 ≡ ok (new +ℤ amt)
        → new +ℤ amt ≡ w.balance
        → Posted credit_type tenant amount ref ref_id by b (credit tenant amount ref ref_id by b)
        → ((credit tenant amount ref ref_id by b).0 ≡ ok w.balance)
          × (wallet_of tenant (credit tenant amount ref ref_id by b).1 ≡ some w)
    restored r back p =
        let found' : p.wallet ≡ record v { balance = new } = cc (p.found, found) in
        let bal : p.new_balance ≡ w.balance =
          cc (r, back, ap (λ (z : Result Error ℤ × Book). z.0) p.result) in
        (rw r (ap ok back), wallet_of-Posted b p ∙ rw (bal, found') (ground arith))

-- After a debit, whatever else was done outside the wallets' rows, a refund of the same amount, for
-- whatever reason and by whomever, goes through and restores the wallet's row.
pub refund-debit :
    (tenant : ℕ) (amount : Option ℤ) (ref ref' : ReferenceType) (ref_id by ref_id' by' : Option ℕ)
    (b b' : Book) (w : WalletRow) (new : ℤ)
    → wallet_of tenant b ≡ some w
    → (debit tenant amount ref ref_id by b).0 ≡ ok new
    → b'.wallets ≡ (debit tenant amount ref ref_id by b).1.wallets
    → let (r, b'') = credit tenant amount ref' ref_id' by' b' in
      (r ≡ ok w.balance) × (wallet_of tenant b'' ≡ some w)
refund-debit tenant amount ref ref' ref_id by ref_id' by' b b' w new found e same =
    elim (debit_cases tenant ref ref_id by b amount) [
      | inr (x, refused) ↦ absurd (cc (ap (λ (z : Result Error ℤ × Book). z.0) refused))
      | inl p ↦
          refund tenant amount ref' ref_id' by' b' w p.wallet p.amt p.new_balance
            (cc (p.found, found)) (p.parsed) p.is_positive p.moved
            (ap (find_one (λ (r : WalletRow). r.tenant_id == tenant)) same ∙ wallet_of-Posted b p)
    ]
