-- ===== src/Tickets/Defs.antt =====
-- The tables of the tickets, the numbers, and the time by which a ticket is due. Times are in seconds.
use saas_frontend.Base.{
  ℕ, ◌+◌, ◌*◌, Bool, Option, none, some, List, ◌∷◌, ◌++◌, Action, pure, gets, modify, ◌>>=◌, ◌>>◌,
  ◌==◌, if◌then◌else◌, find_one, update_where, Result, ok, err,
}
use saas_frontend.Base.Text.{Text, codes, text_eq}
use saas_frontend.Billing.Numbering.Decimal.{to_string, pad_start}

-- `ENUM`s of the columns `category`, `priority` and `status`
pub data Category : Type 0 where
  billing technical shipment_issue account other_category : Category

pub data Priority : Type 0 where
  low medium high urgent : Priority

pub data TicketStatus : Type 0 where
  opened in_progress waiting_on_tenant resolved closed : TicketStatus

pub record SupportTicket : Type 0 where
  pub id : ℕ
  pub tenant_id : ℕ
  pub ticket_number : Text
  pub subject : Text
  pub category : Category
  pub priority : Priority
  pub status : TicketStatus
  pub related_shipment_id : Option ℕ
  pub related_order_id : Option ℕ
  pub assigned_to : Option ℕ
  pub created_by : ℕ
  pub first_response_at : Option ℕ
  pub resolved_at : Option ℕ
  pub sla_due_at : ℕ
  pub sla_breached : Bool

-- `ENUM` of the column `sender_type`
pub data SenderType : Type 0 where
  tenant_user platform_admin : SenderType

pub record TicketMessage : Type 0 where
  pub id : ℕ
  pub ticket_id : ℕ
  pub sender_type : SenderType
  pub sender_id : ℕ
  pub message : Text
  pub is_internal_note : Bool

-- A file that comes with a message.
pub record Attached : Type 0 where
  pub file_name : Text
  pub file_url : Text
  pub file_size_bytes : ℕ

pub record TicketAttachment : Type 0 where
  pub ticket_id : ℕ
  pub ticket_message_id : ℕ
  pub file : Attached
  pub uploaded_by : ℕ

pub record SystemSequence : Type 0 where
  pub sequence_key : Text
  pub last_value : ℕ

-- The columns of an order or a shipment that the service reads.
pub record Owned : Type 0 where
  pub id : ℕ
  pub tenant_id : ℕ

-- The events of the bus, each with the id of the ticket.
pub data TicketEffect : Type 0 where
  ticket_created ticket_replied ticket_resolved sla_breach_warning : ℕ → TicketEffect

pub record Tickets : Type 0 where
  pub tickets : List SupportTicket
  pub messages : List TicketMessage
  pub attachments : List TicketAttachment
  pub sequences : List SystemSequence
  pub orders : List Owned
  pub shipments : List Owned
  pub admins : List ℕ
  pub next_id : ℕ
  pub effects : List TicketEffect

-- `duplicate_number` is the refusal of the unique column `ticket_number`, `unknown_category` that of a
-- word which the column `category` does not have.
pub data Error : Type 0 where
  cross_tenant_reference ticket_not_found ticket_closed ticket_not_resolved : Error
  admin_not_found duplicate_number not_null_violation unknown_category : Error

abbrev pub Call : Type 0 → Type 0
Call A = Action Tickets Error A

-- `sequelize.transaction(async (transaction) => ...)`: events stay emitted after a rollback.
abbrev pub close : {A : Type 0} → Tickets → Result Error A × Tickets → Result Error A × Tickets
close t (ok a, t') = (ok a, t')
close t (err e, t') = (err e, record t { effects = t'.effects })

abbrev pub own_transaction : {A : Type 0} → Call A → Call A
own_transaction m t = close t (m t)

abbrev pub is_sequence : Text → SystemSequence → Bool
is_sequence key s = text_eq s.sequence_key key

abbrev pub support_ticket : Text
support_ticket = codes "support_ticket"

-- `${prefix}-${padded}`, with the prefix and the width that the service asks for
unfoldable pub ticket_number_of : ℕ → Text
unfolding to_string pad_start
ticket_number_of n = codes "TKT-" ++ pad_start 6 (to_string n)

-- The counter of a key, found or created.
abbrev pub last_value_of : Text → List SystemSequence → ℕ
last_value_of key seqs = elim (find_one (is_sequence key) seqs) [ none ↦ 0 | some s ↦ s.last_value ]

abbrev pub store_value : Text → ℕ → List SystemSequence → List SystemSequence
store_value key n seqs = elim (find_one (is_sequence key) seqs) [
  | none ↦ record { sequence_key = key; last_value = n } ∷ seqs
  | some s ↦ update_where (is_sequence key) (λ r. record r { last_value = n }) seqs
]

-- `generateNextSequence('support_ticket', 'TKT', 6, transaction)`
unfoldable pub generate_next_sequence : Call Text
generate_next_sequence = do
  n ← gets (λ t. last_value_of support_ticket t.sequences + 1)
  modify (λ t. record t { sequences = store_value support_ticket n t.sequences })
  pure (ticket_number_of n)

-- The hours of the environment, where 0 stands for a number that is missing.
pub record SlaHours : Type 0 where
  pub urgent_hours : ℕ
  pub high_hours : ℕ
  pub medium_hours : ℕ
  pub low_hours : ℕ

abbrev pub or_hours : ℕ → ℕ → ℕ
or_hours n default = if n == 0 then default else n

abbrev pub hours_for : SlaHours → Priority → ℕ
hours_for h urgent = or_hours h.urgent_hours 2
hours_for h high = or_hours h.high_hours 8
hours_for h medium = or_hours h.medium_hours 24
hours_for h low = or_hours h.low_hours 72

-- `calculateSlaDueDate`
unfoldable pub calculate_sla_due_date : SlaHours → ℕ → Priority → ℕ
calculate_sla_due_date h now priority = now + hours_for h priority * 3600

abbrev pub ticket_by_id : ℕ → Tickets → Option SupportTicket
ticket_by_id id t = find_one (λ k. k.id == id) t.tickets

-- `ticket.update(values)`
abbrev pub update_ticket : ℕ → (SupportTicket → SupportTicket) → Tickets → Tickets
update_ticket id f t = record t { tickets = update_where (λ k. k.id == id) f t.tickets }

abbrev pub emit : TicketEffect → Tickets → Tickets
emit e t = record t { effects = e ∷ t.effects }
