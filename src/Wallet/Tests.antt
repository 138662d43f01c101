-- ===== src/Wallet/Tests.antt =====
-- A wallet that was recharged, runs on it, and instances of the theorems.
use saas_frontend.Base.{◌≡◌, refl, none, some, List, [], ◌∷◌, ok, arith}
use saas_frontend.Base.Int.{pos, negsuc, ◌+ℤ◌, ◌-ℤ◌}
use saas_frontend.Wallet.Defs.{
  WalletRow, credit_type, Book, recharge, shipment_debit, shipment_refund, credit, debit, wallet_of,
}
use saas_frontend.Wallet.Ledger.{IsValid, Op, credits, debits, run, run-IsValid}
use saas_frontend.Wallet.Refund.{refund-debit}

abbrev wallet : WalletRow
wallet = record { id = 7; tenant_id = 1; balance = pos 1000; low_balance_threshold = pos 500 }

abbrev book : Book
book = record {
  wallets = wallet ∷ [];
  ledger =
      record {
        id = 0;
        wallet_id = 7;
        tenant_id = 1;
        type = credit_type;
        amount = pos 1000;
        balance_after = pos 1000;
        reference_type = recharge;
        reference_id = none;
        performed_by = some 3;
      }
      ∷ [];
  next_id = 1;
  effects = [];
}

-- The books of a wallet whose cached balance was changed by hand.
abbrev tampered : Book
tampered = record book { wallets = record wallet { balance = negsuc 4 } ∷ [] }

book-IsValid : IsValid book
unfolding ◌+ℤ◌ ◌-ℤ◌
book-IsValid = ((omega arith, refl), tt)

pays : (debit 1 (some (pos 600)) shipment_debit none none book).0 ≡ ok (pos 400)
unfolding debit ◌-ℤ◌
pays = refl

-- A payment, one that is refused, and one of a tenant that has no wallet.
abbrev ops : List Op
ops =
    debits 1 (some (pos 600)) shipment_debit (some 10) none
    ∷ debits 1 (some (pos 600)) shipment_debit (some 11) none
    ∷ credits 2 (some (pos 5)) shipment_refund none none
    ∷ credits 1 (some (pos 600)) shipment_refund (some 10) (some 4)
    ∷ []

run-IsValid_example : IsValid (run ops book)
run-IsValid_example = run-IsValid ops book book-IsValid

refund-debit_example :
    let (r, b) =
      credit 1
        (some (pos 600))
        shipment_refund
        (some 10)
        (some 4)
        (debit 1 (some (pos 600)) shipment_debit none none book).1 in
    (r ≡ ok (pos 1000)) × (wallet_of 1 b ≡ some wallet)
refund-debit_example =
    refund-debit 1 (some (pos 600)) shipment_debit shipment_refund none none (some 10) (some 4) book
      (debit 1 (some (pos 600)) shipment_debit none none book).1 wallet (pos 400) refl pays refl
