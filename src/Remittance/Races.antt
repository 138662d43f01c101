-- ===== src/Remittance/Races.antt =====
-- What a batch's seller is paid, by one call, by a second one, and by two that read it together.
use saas_frontend.Base.{
  ℕ, ◌+◌, ◌≡◌, refl, sym, ap, subst, ◌∙◌, false, none, some, Result, ok, arith,
}
use saas_frontend.Base.Int.{pos, ◌+ℤ◌, ◌≤ℤ◌}
use saas_frontend.Base.Text.{Text}
use saas_frontend.Wallet.{Book, WalletRow, wallet_of, cod_remittance}
use saas_frontend.Wallet.Payments.{entries, credit_pays}
use saas_frontend.Remittance.Defs.{
  Mode, wallet_credit, bank_payout, no_reference, Batch, processing, Remittances, Error,
  batch_by_id, is_taken, pay_out, complete, close, carry_out, process_batch,
}
use saas_frontend.Remittance.Once.{is_remittance, times_paid, same_batch, start}

-- What a payment into the wallet leaves: the answer, the wallet, the batch and its entries.
pub record PaidOut (now : ℕ) (b : Batch) (w : WalletRow) (t : Remittances)
    (z : Result Error Batch × Remittances) : Type 0 where
  pub reply : z.0 ≡ ok (complete now none b)
  pub wallet :
      wallet_of b.seller_id z.1.book ≡ some (record w { balance = w.balance +ℤ b.net_amount })
  pub row : batch_by_id b.id z.1 ≡ some (complete now none b)
  pub counted : times_paid b.id z.1 ≡ times_paid b.id t + 1

pay_out-wallet :
    (mode : Mode) (admin : ℕ) (random : Text) (b : Batch) (w : WalletRow) (book : Book)
    → mode ≡ wallet_credit
    → wallet_of b.seller_id book ≡ some w
    → pos 1 ≤ℤ b.net_amount
    → (book' : Book) × (pay_out mode admin random b book ≡ (ok none, book'))
      × (wallet_of b.seller_id book' ≡ some (record w { balance = w.balance +ℤ b.net_amount }))
      × (entries is_remittance b.id book' ≡ entries is_remittance b.id book + 1)
pay_out-wallet wallet_credit admin random b w book is_wallet has positive =
    let (paid, held, more) =
      credit_pays is_remittance b.seller_id b.id b.net_amount cod_remittance (some admin) book w
        refl has positive in
    (_, ap (λ r. (no_reference r, (pay_out wallet_credit admin random b book).1)) paid, held, more)
pay_out-wallet bank_payout admin random b w book is_wallet has positive = absurd (cc is_wallet)

-- Nothing in what follows the test of the status reads the status again.
carry_out-PaidOut :
    (now admin : ℕ) (random : Text) (b row : Batch) (w : WalletRow) (t : Remittances)
    → batch_by_id b.id t ≡ some row
    → complete now none row ≡ complete now none b
    → b.remittance_mode ≡ wallet_credit
    → wallet_of b.seller_id t.book ≡ some w
    → pos 1 ≤ℤ b.net_amount
    → PaidOut now b w t (carry_out now admin random b t)
unfolding carry_out
carry_out-PaidOut now admin random b row w t found same mode has positive =
    let (book, paid, held, more) =
      pay_out-wallet b.remittance_mode admin random b w t.book mode has positive in
    let started = same_batch b.id (λ r. record r { status = processing }) row t (λ y. refl) found in
    subst (λ p. PaidOut now b w t (close now admin b (start b t) p)) (sym paid)
      (record {
        reply = refl;
        wallet = held;
        row =
            same_batch b.id (complete now none) _ (record (start b t) { book = book }) (λ y. refl)
              started
            ∙ ap some same;
        counted = more;
      })

module _ (now admin now' admin' : ℕ) (random random' : Text) (b : Batch) (w : WalletRow)
    (t : Remittances) (found : batch_by_id b.id t ≡ some b) (free : is_taken b.status ≡ false)
    (mode : b.remittance_mode ≡ wallet_credit) (has : wallet_of b.seller_id t.book ≡ some w)
    (positive : pos 1 ≤ℤ b.net_amount) where
  carries_out : process_batch now admin random b.id t ≡ carry_out now admin random b t
  unfolding process_batch
  carries_out = rw (process_batch, found, free) refl

  -- A batch for the wallet that is `pending` or `failed` is paid in whole: the seller's wallet holds
  -- its net amount more, the ledger one entry more for it, and the batch is `completed`. A second
  -- call answers the same and changes nothing.
  pub process_batch-PaidOut :
      let (r, t') = process_batch now admin random b.id t in
      PaidOut now b w t (r, t')
      × (process_batch now' admin' random' b.id t' ≡ (ok (complete now none b), t'))
  unfolding process_batch
  process_batch-PaidOut =
      let paid = carry_out-PaidOut now admin random b b w t found refl mode has positive in
      rw carries_out (paid, rw (process_batch, paid.row) refl)

  -- A call of a batch for the wallet that is `pending` or `failed` is carried out for the row that it
  -- read. Where a second call has read the same row before the first has written its status, it is
  -- carried out as well: the net amount is paid in two times, with two entries in the ledger.
  pub read_twice-pays_twice :
      let t' = (carry_out now admin random b t).1 in
      (process_batch now admin random b.id t ≡ carry_out now admin random b t)
      × PaidOut now' b
          (record w { balance = w.balance +ℤ b.net_amount })
          t'
          (carry_out now' admin' random' b t')
      × (times_paid b.id (carry_out now' admin' random' b t').1 ≡ times_paid b.id t + 2)
  read_twice-pays_twice =
      let first = carry_out-PaidOut now admin random b b w t found refl mode has positive in
      let second =
        carry_out-PaidOut now' admin' random' b (complete now none b) _ _ first.row refl mode
          first.wallet positive in
      (carries_out, second, omega (arith, first.counted, second.counted))
