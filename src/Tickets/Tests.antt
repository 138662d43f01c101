-- ===== src/Tickets/Tests.antt =====
-- A tenant's ticket through its life, and instances of the theorems.
use saas_frontend.Base.{ℕ, ◌≡◌, refl, true, false, none, some, List, [], ◌∷◌, ok, arith, map, All}
use saas_frontend.Base.Text.{codes}
use saas_frontend.Tickets.Defs.{
  ticket_number_of, billing, medium, urgent, opened, closed, SupportTicket, tenant_user,
  platform_admin, Tickets, SlaHours,
}
use saas_frontend.Tickets.Opening.{TicketPayload, create_ticket}
use saas_frontend.Tickets.Service.{
  ReplyPayload, reply_to_ticket, resolve_ticket, close_ticket, update_status_or_priority,
}
use saas_frontend.Tickets.Sla.{is_breached, check_sla_breaches}
use saas_frontend.Tickets.Unique.{
  Command, reply, resolve, shut, override, run, Distinct, run-Distinct,
}
use saas_frontend.Tickets.Breaches.{check_sla_breaches-settles}
use saas_frontend.Tickets.Moves
use saas_frontend.Tickets.Moves.{GoesOn, perform, perform-GoesOn}

abbrev hours : SlaHours
hours = record { urgent_hours = 0; high_hours = 0; medium_hours = 12; low_hours = 0 }

abbrev complaint : TicketPayload
complaint = record {
  subject = codes "Wrong invoice";
  category = billing;
  priority = medium;
  message = codes "Please check";
  related_shipment_id = none;
  related_order_id = some 10;
  attachments =
      record { file_name = codes "a.pdf"; file_url = codes "u"; file_size_bytes = 3 } ∷ [];
}

abbrev official_reply : ReplyPayload
official_reply = record {
  message = codes "We look into it";
  is_internal_note = false;
  attachments = [];
  tenant_id = none;
}

abbrev thanks : ReplyPayload
thanks = record {
  message = codes "Not yet";
  is_internal_note = true;
  attachments = [];
  tenant_id = some 1;
}

abbrev empty : Tickets
empty = record {
  tickets = [];
  messages = [];
  attachments = [];
  sequences = [];
  orders = record { id = 10; tenant_id = 1 } ∷ [];
  shipments = [];
  admins = 7 ∷ [];
  next_id = 1;
  effects = [];
}

abbrev row : SupportTicket
row = record {
  id = 1;
  tenant_id = 1;
  ticket_number = codes "TKT-000001";
  subject = codes "Wrong invoice";
  category = billing;
  priority = medium;
  status = opened;
  related_shipment_id = none;
  related_order_id = some 10;
  assigned_to = none;
  created_by = 9;
  first_response_at = none;
  resolved_at = none;
  sla_due_at = 43200;
  sla_breached = false;
}

abbrev one : Tickets
one = record empty {
  tickets = row ∷ [];
  sequences = record { sequence_key = codes "support_ticket"; last_value = 1 } ∷ [];
  next_id = 2;
}

abbrev life : List Command
life =
    reply 100 1 platform_admin 7 official_reply
    ∷ resolve 200 1
    ∷ reply 300 1 tenant_user 9 thanks
    ∷ resolve 400 1
    ∷ shut 1 1
    ∷ reply 500 1 tenant_user 9 thanks
    ∷ []

statuses : map (λ (k : SupportTicket). k.status) (run life one).tickets ≡ closed ∷ []
unfolding reply_to_ticket resolve_ticket close_ticket
statuses = refl

first_number : ticket_number_of 1 ≡ codes "TKT-000001"
unfolding ticket_number_of
first_number = refl

-- An override takes a ticket back with the time of its resolution.
overridden :
    map
      (λ (k : SupportTicket). k.resolved_at)
      (run (resolve 200 1 ∷ override 300 1 (some opened) (some urgent) ∷ []) one).tickets
    ≡ some 200 ∷ []
unfolding resolve_ticket update_status_or_priority
overridden = refl

run-Distinct_example :
    Distinct (run life one).tickets
    × ((id : ℕ) × ((create_ticket hours 600 1 9 complaint (run life one)).0 ≡ ok id))
unfolding reply_to_ticket resolve_ticket close_ticket ticket_number_of
run-Distinct_example =
    run-Distinct life hours 600 1 9 complaint one (1, omega arith, refl, tt) refl refl

check_sla_breaches-settles_example :
    let (found, t) = check_sla_breaches 50000 one in
    All (λ k. is_breached 50000 k ≡ true) found × (check_sla_breaches 49000 t ≡ ([], t))
check_sla_breaches-settles_example = check_sla_breaches-settles 50000 49000 one (omega arith)

perform-GoesOn_example :
    GoesOn 1 row (perform (Moves.reply 100 1 platform_admin 7 official_reply) one)
perform-GoesOn_example =
    perform-GoesOn (Moves.reply 100 1 platform_admin 7 official_reply) 1 row one refl
