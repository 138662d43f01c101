-- ===== src/Tickets/Service.antt =====
-- Tickets are answered, resolved, closed and assigned.
use saas_frontend.Base.{
  ℕ, Bool, true, false, not, Option, none, some, List, gets, or_throw, throw, throw_if, modify,
  ◌>>=◌, ◌>>◌, ◌==◌, if◌then◌else◌, find_one, is_some,
}
use saas_frontend.Base.Text.{Text}
use saas_frontend.Tickets.Defs.{
  Priority, TicketStatus, opened, in_progress, resolved, closed, SupportTicket, SenderType,
  tenant_user, platform_admin, Attached, ticket_replied, ticket_resolved, Tickets, ticket_not_found,
  ticket_closed, ticket_not_resolved, admin_not_found, Call, ticket_by_id, update_ticket, emit,
}
use saas_frontend.Tickets.Opening.{write_with_files}

-- What a sender writes; a tenant's user comes with the tenant.
pub record ReplyPayload : Type 0 where
  pub message : Text
  pub is_internal_note : Bool
  pub attachments : List Attached
  pub tenant_id : Option ℕ

abbrev pub is_other_tenant : Option ℕ → SupportTicket → Bool
is_other_tenant none k = false
is_other_tenant (some tenant) k = not (k.tenant_id == tenant)

abbrev pub is_note : ReplyPayload → Bool
is_note p = elim p.tenant_id [ none ↦ p.is_internal_note | some tenant ↦ false ]

abbrev pub is_closed : TicketStatus → Bool
is_closed closed = true
is_closed _ = false

abbrev pub is_resolved : TicketStatus → Bool
is_resolved resolved = true
is_resolved _ = false

-- What an answer of the tenant does to the ticket.
abbrev pub reopen : SupportTicket → SupportTicket
reopen k = if is_resolved k.status then record k { status = in_progress; resolved_at = none } else k

abbrev pub answered_at : ℕ → Option ℕ → Option ℕ
answered_at now none = some now
answered_at now (some at) = some at

abbrev pub begun : TicketStatus → TicketStatus
begun opened = in_progress
begun status = status

-- `updates`
abbrev pub answered : ℕ → SenderType → Bool → SupportTicket → SupportTicket
answered now tenant_user note k = reopen k
answered now platform_admin true k = k
answered now platform_admin false k = record k {
  first_response_at = answered_at now k.first_response_at;
  status = begun k.status;
}

-- The event, unless the message is a note
abbrev pub announce : Bool → ℕ → Tickets → Tickets
announce true id t = t
announce false id t = emit (ticket_replied id) t

abbrev pub write_reply : ℕ → SenderType → ℕ → ReplyPayload → ℕ → Tickets → Tickets
write_reply now sender_type sender p id t = announce (is_note p) id (
    update_ticket id (answered now sender_type (is_note p))
      (write_with_files id sender_type sender p.message (is_note p) p.attachments t))

-- `replyToTicket`
unfoldable pub reply_to_ticket : ℕ → ℕ → SenderType → ℕ → ReplyPayload → Call (Unit {0})
reply_to_ticket now id sender_type sender p = do
  k ← or_throw (← gets (ticket_by_id id)) ticket_not_found
  throw_if (is_other_tenant p.tenant_id k) ticket_not_found
  throw_if (is_closed k.status) ticket_closed
  modify (write_reply now sender_type sender p k.id)

-- `resolveTicket`
unfoldable pub resolve_ticket : ℕ → ℕ → Call (Unit {0})
resolve_ticket now id = do
  k ← or_throw (← gets (ticket_by_id id)) ticket_not_found
  modify (update_ticket k.id (λ r. record r { status = resolved; resolved_at = some now }))
  modify (emit (ticket_resolved k.id))

-- `closeTicket`
unfoldable pub close_ticket : ℕ → ℕ → Call (Unit {0})
close_ticket id tenant = do
  k ← or_throw (← gets (ticket_by_id id)) ticket_not_found
  throw_if (not (k.tenant_id == tenant)) ticket_not_found
  throw_if (not (is_resolved k.status)) ticket_not_resolved
  modify (update_ticket k.id (λ r. record r { status = closed }))

abbrev pub assign_to : ℕ → SupportTicket → Call (Unit {0})
assign_to admin k t =
    if is_some (find_one (λ x. x == admin) t.admins)
    then modify
        (update_ticket k.id (λ r. record r { assigned_to = some admin; status = begun k.status })) t
    else throw admin_not_found t

-- `assignTicket`
unfoldable pub assign_ticket : ℕ → ℕ → Call (Unit {0})
assign_ticket id admin = do
  k ← or_throw (← gets (ticket_by_id id)) ticket_not_found
  assign_to admin k

abbrev pub override_status : ℕ → Option TicketStatus → SupportTicket → SupportTicket
override_status now none k = k
override_status now (some status) k =
    if is_resolved status
    then record k { status = status; resolved_at = some now }
    else record k { status = status }

abbrev pub override_priority : Option Priority → SupportTicket → SupportTicket
override_priority none k = k
override_priority (some priority) k = record k { priority = priority }

-- `updateStatusOrPriority`
unfoldable pub update_status_or_priority :
    ℕ → ℕ → Option TicketStatus → Option Priority → Call (Unit {0})
update_status_or_priority now id status priority = do
  k ← or_throw (← gets (ticket_by_id id)) ticket_not_found
  modify (update_ticket k.id (λ r. override_priority priority (override_status now status r)))
