-- ===== src/Remittance/Tests.antt =====
-- A batch of two shipments, and instances of the theorems.
use saas_frontend.Base.{◌≡◌, refl, none, List, [], ◌∷◌, arith, map}
use saas_frontend.Base.Int.{pos, ◌+ℤ◌, ◌-ℤ◌}
use saas_frontend.Wallet.{WalletRow, credit, own_transaction}
use saas_frontend.Remittance.Defs.{
  Batch, pending, completed, failed, wallet_credit, Remittances, Request, carry_out, create_batch,
  process_batch,
}
use saas_frontend.Remittance.Once.{
  IsPaidOnce, times_paid, Op, creates, processes, run, run-IsPaidOnce,
}
use saas_frontend.Remittance.Races.{PaidOut, read_twice-pays_twice}

abbrev wallet : WalletRow
wallet = record { id = 7; tenant_id = 1; balance = pos 1000; low_balance_threshold = pos 0 }

abbrev batch : Batch
batch = record {
  id = 3;
  seller_id = 1;
  shipment_ids = 100 ∷ 101 ∷ [];
  gross_cod_amount = pos 50000;
  platform_fee_deducted = pos 1000;
  net_amount = pos 49000;
  remittance_mode = wallet_credit;
  batch_reference = 5;
  payout_reference = none;
  status = pending;
  completed_at = none;
}

abbrev start : Remittances
start = record {
  book = record { wallets = wallet ∷ []; ledger = []; next_id = 1; effects = [] };
  batches = batch ∷ [];
  next_id = 4;
  effects = [];
}

abbrev request : Request
request = record {
  seller_id = 2;
  shipment_ids = 102 ∷ [];
  gross_amount = pos 300;
  platform_fee = pos 10;
  remittance_mode = wallet_credit;
}

-- The same batch twice, and one of a seller that has no wallet, which is tried twice.
abbrev ops : List Op
ops =
    processes 10 9 [] 3
    ∷ processes 11 9 [] 3
    ∷ creates 12 request
    ∷ processes 13 9 [] 4
    ∷ processes 14 9 [] 4
    ∷ []

ends : map (λ (b : Batch). b.status) (run ops start).batches ≡ failed ∷ completed ∷ []
unfolding process_batch create_batch own_transaction credit ◌-ℤ◌
ends = refl

run-IsPaidOnce_example : IsPaidOnce 3 (run ops start)
run-IsPaidOnce_example =
    run-IsPaidOnce 3 ops start
      (record { once = omega arith; fresh = λ le. absurd (omega (arith, le)) })

read_twice-pays_twice_example :
    let t' = (carry_out 10 9 [] batch start).1 in
    (process_batch 10 9 [] 3 start ≡ carry_out 10 9 [] batch start)
    × PaidOut 11 batch
        (record wallet { balance = pos 1000 +ℤ pos 49000 })
        t'
        (carry_out 11 8 [] batch t')
    × (times_paid 3 (carry_out 11 8 [] batch t').1 ≡ 2)
read_twice-pays_twice_example =
    read_twice-pays_twice 10 9 11 8 [] [] batch wallet start refl refl refl refl (omega arith)
