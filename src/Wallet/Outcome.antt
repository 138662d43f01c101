-- ===== src/Wallet/Outcome.antt =====
-- How a call of the wallet ends: with one entry posted, or with an error and nothing written.
use saas_frontend.Base.{
  ℕ, ◌≡◌, refl, Option, none, some, List, ◌∷◌, Result, ok, err, ◌⊎◌, inl, inr, arith, Option-cases,
  Bool-cases,
}
use saas_frontend.Base.Int.{
  ℤ, pos, ◌+ℤ◌, ◌-ℤ◌, ◌≤ℤ◌, int_laws, leb_ℤ, ltb_ℤ, lt_of_leb_ℤ, le_of_ltb_ℤ,
}
use saas_frontend.Wallet.Defs.{
  check_balance_for_shipment, WalletRow, TxnType, credit_type, debit_type, ReferenceType, Book,
  Error, credit_not_positive, debit_not_positive, wallet_not_found, insufficient_balance, Effect,
  post, credit, debit, wallet_of, invoice_freight, alert_low_balance, audit_recharge_completed,
  audit_wallet_debit,
}

-- What an entry adds to the wallet's balance.
abbrev pub signed : TxnType → ℤ → ℤ
signed credit_type amt = amt
signed debit_type amt = pos 0 -ℤ amt

-- The wallet that a call found and the amount that it posted there, with the effects that it left.
pub record Posted (type : TxnType) (tenant : ℕ) (amount : Option ℤ) (ref : ReferenceType)
    (ref_id by : Option ℕ) (b : Book) (r : Result Error ℤ × Book) : Type 0 where
  pub wallet : WalletRow
  pub amt : ℤ
  pub new_balance : ℤ
  pub effects : List Effect
  pub found : wallet_of tenant b ≡ some wallet
  pub parsed : amount ≡ some amt
  pub is_positive : pos 1 ≤ℤ amt
  pub moved : new_balance ≡ wallet.balance +ℤ signed type amt
  pub covered : pos 0 ≤ℤ wallet.balance → pos 0 ≤ℤ new_balance
  pub result : r ≡ (
    ok new_balance,
    record (post type wallet amt new_balance ref ref_id by b) { effects = effects },
  )

-- A refused call writes nothing.
abbrev pub Refused : Book → Result Error ℤ × Book → Type 0
Refused b r = (e : Error) × (r ≡ (err e, b))

module _ (tenant : ℕ) (ref : ReferenceType) (ref_id by : Option ℕ) (b : Book) where
  pub credit_cases :
      (amount : Option ℤ)
      → Posted credit_type tenant amount ref ref_id by b (credit tenant amount ref ref_id by b)
        ⊎ Refused b (credit tenant amount ref ref_id by b)
  unfolding credit
  credit_cases none = inr (credit_not_positive, refl)
  credit_cases (some amt) = elim (Bool-cases (leb_ℤ amt (pos 0))) [
    | inl bad ↦ inr (credit_not_positive, ground arith)
    | inr good ↦ elim (Option-cases (wallet_of tenant b)) [
      | inl missing ↦ inr (wallet_not_found, ground arith)
      | inr (w, found) ↦ inl (record {
        wallet = w;
        amt = amt;
        new_balance = w.balance +ℤ amt;
        effects =
            audit_recharge_completed tenant by b.next_id amt ref (w.balance +ℤ amt) ∷ b.effects;
        found = found;
        parsed = refl;
        is_positive = omega (int_laws, lt_of_leb_ℤ amt (pos 0) good);
        moved = refl;
        covered = λ h. omega (int_laws, lt_of_leb_ℤ amt (pos 0) good);
        result = ground arith;
      })
    ]
  ]

  debit_effects : WalletRow → ℤ → ℤ → List Effect
  debit_effects w amt new = invoice_freight ref b.next_id tenant amt (
      alert_low_balance tenant w new
        (audit_wallet_debit tenant by b.next_id amt ref new ∷ b.effects))

  pub debit_cases :
      (amount : Option ℤ)
      → (Posted debit_type tenant amount ref ref_id by b (debit tenant amount ref ref_id by b))
        ⊎ Refused b (debit tenant amount ref ref_id by b)
  unfolding debit debit_effects
  debit_cases none = inr (debit_not_positive, refl)
  debit_cases (some amt) = elim (Bool-cases (leb_ℤ amt (pos 0))) [
    | inl bad ↦ inr (debit_not_positive, ground arith)
    | inr good ↦ elim (Option-cases (wallet_of tenant b)) [
      | inl missing ↦ inr (wallet_not_found, ground arith)
      | inr (w, found) ↦ elim (Bool-cases (ltb_ℤ w.balance amt)) [
        | inl short ↦ inr (insufficient_balance, ground arith)
        | inr covered ↦ inl (record {
          wallet = w;
          amt = amt;
          new_balance = w.balance -ℤ amt;
          effects = debit_effects w amt (w.balance -ℤ amt);
          found = found;
          parsed = refl;
          is_positive = omega (int_laws, lt_of_leb_ℤ amt (pos 0) good);
          moved = omega int_laws;
          covered = λ h. omega (int_laws, le_of_ltb_ℤ w.balance amt covered);
          result = ground arith;
        })
      ]
    ]
  ]

-- The check before a booking writes nothing.
pub check_balance-keeps :
    (tenant : ℕ) (amount : Option ℤ) (b : Book) → (check_balance_for_shipment tenant amount b).1 ≡ b
unfolding check_balance_for_shipment
check_balance-keeps tenant none b = refl
check_balance-keeps tenant (some amt) b = ground arith
