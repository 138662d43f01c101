-- ===== src/Shipping/Session.antt =====
-- Transactions: the committed tables, the view that the open transaction has of them, and what has
-- been done outside. One call runs at a time: the lock on the
-- wallet's row ensures it for the bookings of a tenant, not for two cancellations of one shipment.
use saas_frontend.Base.{List, ◌∷◌, ok, err, Action}
use saas_frontend.Wallet
use saas_frontend.Plan
use saas_frontend.Shipping.Defs.{Db, Effect, Error, wallet_error, plan_error}

pub record Session : Type 0 where
  pub committed : Db
  pub view : Db
  pub wallet_effects : List Wallet.Effect
  pub effects : List Effect

abbrev pub Call : Type 0 → Type 0
Call A = Action Session Error A

-- `db.transaction(async (t) => ...)`
unfoldable pub in_transaction : {A : Type 0} → Call A → Call A
in_transaction m s =
    let (r, s') = m (record s { view = s.committed }) in
    elim r [
      | ok a ↦ (ok a, record s' { committed = s'.view })
      | err e ↦ (err e, record s' { view = s'.committed })
    ]

-- A statement in the transaction.
abbrev pub write : (Db → Db) → Call (Unit {0})
write f s = (ok tt, record s { view = f s.view })

abbrev pub act : Effect → Call (Unit {0})
act e s = (ok tt, record s { effects = e ∷ s.effects })

-- A call of the wallet service that is handed the transaction. Its audit rows and events go out at
-- once.
unfoldable pub on_wallet : {A : Type 0} → Wallet.Call A → Call A
on_wallet m s =
    let (r, b) = m (record s.view.book { effects = s.wallet_effects }) in
    let s' : Session = record s {
      view = record s.view { book = record b { effects = s.view.book.effects } };
      wallet_effects = b.effects;
    } in
    elim r [ ok a ↦ (ok a, s') | err e ↦ (err (wallet_error e), s') ]

-- A call of the plan service outside the transaction: it reads the committed tables, and what it
-- writes is seen at once by everybody.
unfoldable pub on_plan_outside : {A : Type 0} → Plan.Call A → Call A
on_plan_outside m s =
    let (r, t) = m s.committed.plan in
    let s' : Session = record s {
      committed = record s.committed { plan = t };
      view = record s.view { plan = (m s.view.plan).1 };
    } in
    elim r [ ok a ↦ (ok a, s') | err e ↦ (err (plan_error e), s') ]
