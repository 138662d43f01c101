-- ===== src/Recharge/Tests.antt =====
-- A recharge of 500 rupees, and instances of the theorems.
use saas_frontend.Base.{◌+◌, ◌≡◌, refl, true, none, some, List, [], ◌∷◌, err, arith}
use saas_frontend.Base.Int.{pos, ◌+ℤ◌}
use saas_frontend.Base.Text.{codes, text_eq}
use saas_frontend.Wallet.{WalletRow, credit}
use saas_frontend.Recharge.Defs.{
  RechargeOrder, pending, Till, Error, gateway_failed, Gateway, payment_captured, settle,
  mark_failed, initiate_recharge, verify_recharge_payment, handle_gateway_webhook,
}
use saas_frontend.Recharge.Once.{times_paid, IsPaidOnce, confirm_all-IsPaidOnce}
use saas_frontend.Recharge.Confirming.{Confirm, verifies, hooks, confirm_all}
use saas_frontend.Recharge.Late.{late_failure-pays_twice}
use saas_frontend.Recharge.Stuck.{Later, initiates, confirms, perform_all, gateway_failed-stops}

abbrev order : RechargeOrder
order = record {
  id = 20;
  tenant_id = 1;
  wallet_id = 7;
  amount = pos 50000;
  gateway_order_id = codes "order_1";
  gateway_payment_id = none;
  status = pending;
  initiated_by = 9;
  completed_at = none;
}

abbrev wallet : WalletRow
wallet = record { id = 7; tenant_id = 1; balance = pos 1000; low_balance_threshold = pos 50000 }

abbrev till : Till
till = record {
  book = record { wallets = wallet ∷ []; ledger = []; next_id = 0; effects = [] };
  orders = order ∷ [];
  next_id = 21;
  audit = [];
}

-- A gateway that takes the signature `good`, and captures the order in every webhook.
abbrev gateway : Gateway
gateway = record {
  now = 50;
  create_order = λ amt id. some (codes "order_2");
  verifies_payment = λ g payment signature. text_eq signature (codes "good");
  verifies_webhook = λ body signature. true;
  parse = λ body. some (payment_captured (some (codes "order_1")) (codes "pay_1"));
}

-- A forged verification, a webhook that comes twice, and a good verification.
abbrev calls : List Confirm
calls =
    verifies gateway 1 9 20 (codes "pay_1") (codes "bad")
    ∷ hooks gateway [] []
    ∷ hooks gateway [] []
    ∷ verifies gateway 1 9 20 (codes "pay_1") (codes "good")
    ∷ []

once : times_paid 20 (confirm_all calls till) ≡ 1
unfolding verify_recharge_payment handle_gateway_webhook credit ◌+ℤ◌
once = refl

confirm_all-IsPaidOnce_example : IsPaidOnce 20 (confirm_all calls till)
confirm_all-IsPaidOnce_example = confirm_all-IsPaidOnce 20 calls till (omega arith)

late_failure-pays_twice_example :
    times_paid 20
      (settle 20 1 9
        (codes "pay_1")
        52
        (mark_failed order (settle 20 1 9 (codes "pay_1") 50 till).1)).1
    ≡ 0 + 2
late_failure-pays_twice_example =
    late_failure-pays_twice 1 9 9 (codes "pay_1") (codes "pay_1") 50 52 order till refl refl refl
      (omega arith) (wallet, refl)

abbrev silent : Gateway
silent = record gateway { create_order = λ amt id. none }

fails : (initiate_recharge silent 1 9 (some (pos 50000)) till).0 ≡ err gateway_failed
unfolding initiate_recharge
fails = refl

-- A good verification of the order of before, and an initiation.
abbrev later : List Later
later =
    confirms (verifies gateway 1 9 20 (codes "pay_1") (codes "good"))
    ∷ initiates gateway 1 9 (some (pos 20000))
    ∷ []

gateway_failed-stops_example :
    let t = perform_all later (initiate_recharge silent 1 9 (some (pos 50000)) till).1 in
    (e : Error) × (initiate_recharge gateway 2 8 (some (pos 70000)) t ≡ (err e, t))
gateway_failed-stops_example =
    gateway_failed-stops silent gateway 1 2 9 8 (some (pos 50000)) (some (pos 70000)) later till
      fails
