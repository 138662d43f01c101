-- ===== src/Remittance/Once.antt =====
-- How often a batch is paid in.
use saas_frontend.Base.{
  ℕ, ◌+◌, ◌≤◌, ◌≡◌, refl, sym, ap, subst, ◌∙◌, inl, inr, Bool, true, false, Option, none, some,
  List, [], ◌∷◌, Result, ok, err, arith, ◌==◌, ==_iff, if◌then◌else◌, find_one-update_where,
  find_one-update_where_other, find_one-holds, Option-cases, Bool-cases,
}
use saas_frontend.Base.Int.{ℤ, pos, ◌-ℤ◌, int_laws}
use saas_frontend.Base.Text.{Text}
use saas_frontend.Wallet
use saas_frontend.Wallet.{Book, ReferenceType, cod_remittance}
use saas_frontend.Wallet.Payments.{entries, credit-entries}
use saas_frontend.Remittance.Defs.{
  Mode, wallet_credit, bank_payout, Batch, processing, failed, Remittances, Request, batch_by_id,
  update_batch, is_taken, is_off, pay_out, complete, close, carry_out, create_batch, process_batch,
}

abbrev pub is_remittance : ReferenceType → Bool
is_remittance cod_remittance = true
is_remittance _ = false

-- The entries of the ledger that pay a batch in.
abbrev pub times_paid : ℕ → Remittances → ℕ
times_paid batch t = entries is_remittance batch t.book

abbrev pub paid_of : Option Batch → ℕ
paid_of none = 0
paid_of (some b) = if is_taken b.status then 1 else 0

-- A batch is paid in at most once, and only if its status says so; ids that are not given yet are
-- free.
pub record IsPaidOnce (batch : ℕ) (t : Remittances) : Type 0 where
  pub once : times_paid batch t ≤ paid_of (batch_by_id batch t)
  pub fresh : t.next_id ≤ batch → batch_by_id batch t ≡ none

pub same_batch :
    (id : ℕ) (f : Batch → Batch) (b : Batch) (t : Remittances)
    → ((y : Batch) → (f y).id ≡ y.id)
    → batch_by_id id t ≡ some b
    → batch_by_id id (update_batch id f t) ≡ some (f b)
same_batch id f b t keep found =
    find_one-update_where (λ (b : Batch). b.id == id) (λ (b : Batch). b.id == id) f t.batches
      {x = b} (λ y. ap (λ n. n == id) (keep y)) found
    ∙ rw (find_one-holds (λ (b : Batch). b.id == id) t.batches found) refl

other_batch :
    (batch id : ℕ) (f : Batch → Batch) (t : Remittances)
    → ((y : Batch) → (f y).id ≡ y.id)
    → (id == batch) ≡ false
    → batch_by_id batch (update_batch id f t) ≡ batch_by_id batch t
other_batch batch id f t keep miss =
    find_one-update_where_other (λ (b : Batch). b.id == batch) (λ (b : Batch). b.id == id) f
      t.batches (λ y. ap (λ n. n == batch) (keep y)) (λ y h. ground arith)

-- What a payment may do to the entries of a batch: one more for its own batch, if it goes through.
abbrev pub Counted : ℕ → ℕ → Book → Result Wallet.Error (Option Text) × Book → Type 0
Counted batch id book (ok reference, book') =
    entries is_remittance batch book'
    ≤ entries is_remittance batch book + (if id == batch then 1 else 0)
Counted batch id book (err e, book') =
    entries is_remittance batch book' ≡ entries is_remittance batch book

pay_out-Counted :
    (batch : ℕ) (mode : Mode) (admin : ℕ) (random : Text) (b : Batch) (book : Book)
    → Counted batch b.id book (pay_out mode admin random b book)
pay_out-Counted batch bank_payout admin random b book = omega arith
pay_out-Counted batch wallet_credit admin random b book =
    elim (credit-entries is_remittance batch b.seller_id b.id (some b.net_amount) cod_remittance
      (some admin) book refl) [
        | inl (new, paid, more) ↦ rw paid (omega (arith, more))
        | inr (e, refused, same) ↦ rw refused same
      ]

pub complete-id :
    (now : ℕ) (reference : Option Text) (b : Batch) → (complete now reference b).id ≡ b.id
complete-id now none b = refl
complete-id now (some reference) b = refl

complete-is_taken :
    (now : ℕ) (reference : Option Text) (b : Batch)
    → is_taken (complete now reference b).status ≡ true
complete-is_taken now none b = refl
complete-is_taken now (some reference) b = refl

abbrev pub start : Batch → Remittances → Remittances
start b t = update_batch b.id (λ r. record r { status = processing }) t

module _ (now admin : ℕ) (b : Batch) (t : Remittances) (found : batch_by_id b.id t ≡ some b)
    (free : is_taken b.status ≡ false) where
  started : batch_by_id b.id (start b t) ≡ some (record b { status = processing })
  started = same_batch b.id (λ r. record r { status = processing }) b t (λ y. refl) found

  -- The batch itself: it is free, so that nothing was paid for it before.
  close_same :
      (p : Result Wallet.Error (Option Text) × Book)
      → Counted b.id b.id t.book p
      → IsPaidOnce b.id t
      → IsPaidOnce b.id (close now admin b (start b t) p).1
  close_same (ok reference, book) counted sound =
      let row =
        same_batch b.id (complete now reference) _ (record (start b t) { book = book })
          (complete-id now reference) started in
      record {
        once =
            rw (row, complete-is_taken now reference (record b { status = processing }))
              (ground (arith, found, free, sound.once, counted));
        fresh = λ le. absurd (cc (sound.fresh le, found));
      }
  close_same (err e', book) counted sound =
      let row =
        same_batch b.id (λ r. record r { status = failed }) _ (record (start b t) { book = book })
          (λ y. refl) started in
      record {
        once = ground (arith, found, free, sound.once, counted);
        fresh = λ le. absurd (cc (sound.fresh le, found));
      }

  close_other :
      (batch : ℕ) (p : Result Wallet.Error (Option Text) × Book)
      → (b.id == batch) ≡ false
      → Counted batch b.id t.book p
      → IsPaidOnce batch t
      → IsPaidOnce batch (close now admin b (start b t) p).1
  close_other batch (ok reference, book) miss counted sound =
      let row =
        other_batch batch b.id (complete now reference) (record (start b t) { book = book })
          (complete-id now reference) miss
        ∙ other_batch batch b.id (λ r. record r { status = processing }) t (λ y. refl) miss in
      record {
        once = rw row (ground (arith, sound.once, counted, miss));
        fresh = λ le. row ∙ sound.fresh le;
      }
  close_other batch (err e', book) miss counted sound =
      let row =
        other_batch batch b.id (λ r. record r { status = failed })
          (record (start b t) { book = book }) (λ y. refl) miss
        ∙ other_batch batch b.id (λ r. record r { status = processing }) t (λ y. refl) miss in
      record {
        once = rw row (ground (arith, sound.once, counted, miss));
        fresh = λ le. row ∙ sound.fresh le;
      }

  carry_out-IsPaidOnce :
      (batch : ℕ) (random : Text)
      → IsPaidOnce batch t
      → IsPaidOnce batch (carry_out now admin random b t).1
  unfolding carry_out
  carry_out-IsPaidOnce batch random sound =
      let p = pay_out b.remittance_mode admin random b t.book in
      let counted = λ (n : ℕ). pay_out-Counted n b.remittance_mode admin random b t.book in
      elim (Bool-cases (b.id == batch)) [
        | inl hit ↦
            let e = (==_iff b.id batch).0 hit in
            subst (λ n. IsPaidOnce n (close now admin b (start b t) p).1) e
              (close_same p (counted b.id) (subst (λ n. IsPaidOnce n t) (sym e) sound))
        | inr miss ↦ close_other batch p miss (counted batch) sound
      ]

process-IsPaidOnce :
    (now admin : ℕ) (random : Text) (batch id : ℕ) (t : Remittances)
    → IsPaidOnce batch t
    → IsPaidOnce batch (process_batch now admin random id t).1
unfolding process_batch
process-IsPaidOnce now admin random batch id t sound = elim (Option-cases (batch_by_id id t)) [
  | inl gone ↦ rw (process_batch, gone) sound
  | inr (b, found) ↦ elim (Bool-cases (is_taken b.status)) [
    | inl taken ↦ rw (process_batch, found, taken) sound
    | inr free ↦
        let e : b.id ≡ id =
          (==_iff b.id id).0 (find_one-holds (λ (r : Batch). r.id == id) t.batches found) in
        rw (process_batch, found, free)
          (carry_out-IsPaidOnce now admin b t (subst (λ n. batch_by_id n t ≡ some b) (sym e) found)
            free batch random sound)
  ]
]

-- The net amount is the difference, so the check of it never fails.
pub is_off_never : (gross fee : ℤ) → is_off gross fee (gross -ℤ fee) ≡ false
is_off_never gross fee =
    let zero : pos 0 ≡ (gross -ℤ fee) -ℤ (gross -ℤ fee) = omega int_laws in rw (← zero) refl

create-IsPaidOnce :
    (now : ℕ) (q : Request) (batch : ℕ) (t : Remittances)
    → IsPaidOnce batch t
    → IsPaidOnce batch (create_batch now q t).1
unfolding create_batch
create-IsPaidOnce now q batch t sound =
    rw (create_batch, is_off_never q.gross_amount q.platform_fee)
      (elim (Bool-cases (t.next_id == batch)) [
        | inl hit ↦
            let none_yet : batch_by_id batch t ≡ none = sound.fresh (ground (arith, hit)) in
            record {
              once = ground (arith, sound.once, none_yet, hit);
              fresh = λ le. absurd (ground (arith, hit, le));
            }
        | inr miss ↦ record {
          once = rw miss sound.once;
          fresh = λ le. rw miss (sound.fresh (omega (arith, le)));
        }
      ])

-- The calls of the service that write.
pub data Op : Type 0 where
  creates : ℕ → Request → Op
  processes : ℕ → ℕ → Text → ℕ → Op

abbrev pub step : Op → Remittances → Remittances
step (creates now q) t = (create_batch now q t).1
step (processes now admin random id) t = (process_batch now admin random id t).1

abbrev pub run : List Op → Remittances → Remittances
run [] t = t
run (op ∷ ops) t = run ops (step op t)

-- Where a batch was paid in at most once, and only if its status is `completed` or `processing`,
-- this stays so after any calls that make batches and process them, one after another, repeated and
-- failed ones included.
pub run-IsPaidOnce :
    (batch : ℕ) (ops : List Op) (t : Remittances)
    → IsPaidOnce batch t
    → IsPaidOnce batch (run ops t)
run-IsPaidOnce batch [] t sound = sound
run-IsPaidOnce batch (creates now q ∷ ops) t sound =
    run-IsPaidOnce batch ops _ (create-IsPaidOnce now q batch t sound)
run-IsPaidOnce batch (processes now admin random id ∷ ops) t sound =
    run-IsPaidOnce batch ops _ (process-IsPaidOnce now admin random batch id t sound)
