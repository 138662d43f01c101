-- ===== src/Tickets/Opening.antt =====
-- A ticket is opened, by a tenant and by an escalation.
use saas_frontend.Base.{
  ℕ, ◌+◌, Bool, true, false, not, Option, none, some, List, [], ◌∷◌, ◌++◌, pure, gets, or_throw,
  throw_if, modify, ◌>>=◌, ◌>>◌, ◌==◌, find_one, is_some,
}
use saas_frontend.Base.Text.{Text, codes, text_eq}
use saas_frontend.Tickets.Defs.{
  Category, Priority, high, opened, SupportTicket, SenderType, tenant_user, Attached, Owned,
  ticket_created, Tickets, cross_tenant_reference, duplicate_number, not_null_violation,
  unknown_category, Call, own_transaction, generate_next_sequence, SlaHours, calculate_sla_due_date,
  emit,
}

-- What a tenant writes.
pub record TicketPayload : Type 0 where
  pub subject : Text
  pub category : Category
  pub priority : Priority
  pub message : Text
  pub related_shipment_id : Option ℕ
  pub related_order_id : Option ℕ
  pub attachments : List Attached

-- `!row || row.tenant_id !== tenantId`
abbrev pub is_foreign : ℕ → Option Owned → Bool
is_foreign tenant none = true
is_foreign tenant (some row) = not (row.tenant_id == tenant)

abbrev pub refers_elsewhere : ℕ → Option ℕ → List Owned → Bool
refers_elsewhere tenant none rows = false
refers_elsewhere tenant (some id) rows = is_foreign tenant (find_one (λ r. r.id == id) rows)

-- The values of a row without those that the database gives.
pub record TicketValues : Type 0 where
  pub tenant_id : ℕ
  pub ticket_number : Text
  pub subject : Text
  pub category : Option Category
  pub priority : Priority
  pub related_shipment_id : Option ℕ
  pub related_order_id : Option ℕ
  pub created_by : Option ℕ
  pub sla_due_at : ℕ

abbrev pub has_number : Text → SupportTicket → Bool
has_number number k = text_eq k.ticket_number number

abbrev pub ticket_row : ℕ → TicketValues → Category → ℕ → SupportTicket
ticket_row id v category by = record {
  id = id;
  tenant_id = v.tenant_id;
  ticket_number = v.ticket_number;
  subject = v.subject;
  category = category;
  priority = v.priority;
  status = opened;
  related_shipment_id = v.related_shipment_id;
  related_order_id = v.related_order_id;
  assigned_to = none;
  created_by = by;
  first_response_at = none;
  resolved_at = none;
  sla_due_at = v.sla_due_at;
  sla_breached = false;
}

abbrev pub insert_ticket : TicketValues → Category → ℕ → Tickets → Tickets
insert_ticket v category by t = record t {
  tickets = ticket_row t.next_id v category by ∷ t.tickets;
  next_id = t.next_id + 1;
}

-- `SupportTicket.create`
abbrev pub create_row : TicketValues → Call ℕ
create_row v = do
  by ← or_throw v.created_by not_null_violation
  category ← or_throw v.category unknown_category
  throw_if (is_some (← gets (λ t. find_one (has_number v.ticket_number) t.tickets)))
      duplicate_number
  id ← gets (λ t. t.next_id)
  modify (insert_ticket v category by)
  pure id

-- `TicketMessage.create`
abbrev pub write_message : ℕ → SenderType → ℕ → Text → Bool → Tickets → Tickets
write_message ticket sender_type sender message is_note t = record t {
  messages =
      record {
        id = t.next_id;
        ticket_id = ticket;
        sender_type = sender_type;
        sender_id = sender;
        message = message;
        is_internal_note = is_note;
      }
      ∷ t.messages;
  next_id = t.next_id + 1;
}

abbrev pub attach : ℕ → ℕ → ℕ → List Attached → Tickets → Tickets
attach ticket message by [] t = t
attach ticket message by (file ∷ files) t = attach ticket message by files (record t {
  attachments =
      record { ticket_id = ticket; ticket_message_id = message; file = file; uploaded_by = by }
      ∷ t.attachments;
})

-- A message, and the files with its id.
abbrev pub write_with_files : ℕ → SenderType → ℕ → Text → Bool → List Attached → Tickets → Tickets
write_with_files ticket sender_type sender message is_note files t =
    attach ticket t.next_id sender files (write_message ticket sender_type sender message is_note t)

abbrev pub values_of : SlaHours → ℕ → ℕ → ℕ → TicketPayload → Text → TicketValues
values_of h now tenant user p number = record {
  tenant_id = tenant;
  ticket_number = number;
  subject = p.subject;
  category = some p.category;
  priority = p.priority;
  related_shipment_id = p.related_shipment_id;
  related_order_id = p.related_order_id;
  created_by = some user;
  sla_due_at = calculate_sla_due_date h now p.priority;
}

-- The first message, its files and the event.
abbrev pub open_with : ℕ → TicketPayload → ℕ → Call ℕ
open_with user p id = do
  modify (write_with_files id tenant_user user p.message false p.attachments)
  modify (emit (ticket_created id))
  pure id

abbrev pub insert_all : SlaHours → ℕ → ℕ → ℕ → TicketPayload → Call ℕ
insert_all h now tenant user p = do
  number ← generate_next_sequence
  id ← create_row (values_of h now tenant user p number)
  open_with user p id

-- `createTicket`
unfoldable pub create_ticket : SlaHours → ℕ → ℕ → ℕ → TicketPayload → Call ℕ
unfolding generate_next_sequence calculate_sla_due_date
create_ticket h now tenant user p = do
  throw_if (← gets (λ t. refers_elsewhere tenant p.related_order_id t.orders))
      cross_tenant_reference
  throw_if (← gets (λ t. refers_elsewhere tenant p.related_shipment_id t.shipments))
      cross_tenant_reference
  own_transaction (insert_all h now tenant user p)

abbrev pub escalation_message : Text → Text
escalation_message awb =
    codes
      "This ticket was automatically generated due to an unresolved NDR escalation for Waybill: "
    ++ awb
    ++ codes "."

-- `createFromNdrEscalation`: no `created_by`, and a category that is none.
unfoldable pub create_from_ndr_escalation : SlaHours → ℕ → ℕ → Option ℕ → Text → Call ℕ
unfolding generate_next_sequence calculate_sla_due_date
create_from_ndr_escalation h now tenant order awb = own_transaction (do
  number ← generate_next_sequence
  id ← create_row (record {
    tenant_id = tenant;
    ticket_number = number;
    subject = codes "NDR Escalation - AWB: " ++ awb;
    category = none;
    priority = high;
    related_shipment_id = none;
    related_order_id = order;
    created_by = none;
    sla_due_at = calculate_sla_due_date h now high;
  })
  modify (write_message id tenant_user 0 (escalation_message awb) false)
  pure id)
