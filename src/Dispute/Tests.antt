-- ===== src/Dispute/Tests.antt =====
-- A dispute on a shipment, and an instance of the theorem.
use saas_frontend.Base.{some, none, [], ◌∷◌, true}
use saas_frontend.Base.Int.{pos}
use saas_frontend.Base.Text.{codes}
use saas_frontend.Dispute.Defs.{Disputes, under_review}
use saas_frontend.Dispute.Refused.{Refuses, step, resolves, step-Refuses}

abbrev disputes : Disputes
disputes = record {
  book = record { wallets = []; ledger = []; next_id = 1; effects = [] };
  shipments = record { id = 100; tenant_id = 1; created_at = 5000 } ∷ [];
  disputes =
      record {
        id = 3;
        seller_id = 1;
        shipment_id = 100;
        awb = codes "AWB";
        declared_weight = 500;
        courier_weight = 900;
        disputed_charge = 4000;
        status = under_review;
        resolved_at = none;
        resolved_by = none;
      }
      ∷ [];
  next_id = 4;
  resolved_events = [];
}

step-Refuses_example : Refuses (step (resolves 9000 (λ d. d) 3 8 true (some (pos 600)))) disputes
step-Refuses_example = step-Refuses (resolves 9000 (λ d. d) 3 8 true (some (pos 600))) disputes
