-- ===== src/Tickets/Unique.antt =====
-- No two tickets have one number.
use saas_frontend.Base.{ℕ, ◌≡◌, sym, subst, false, Option, none, List, [], ◌∷◌, ok, arith, find_one}
use saas_frontend.Base.Text.{Text}
use saas_frontend.Tickets.Defs.{
  SupportTicket, SenderType, Priority, TicketStatus, Tickets, SlaHours,
}
use saas_frontend.Tickets.Opening.{
  TicketPayload, has_number, refers_elsewhere, create_ticket, create_from_ndr_escalation,
}
use saas_frontend.Tickets.Service.{
  ReplyPayload, reply_to_ticket, resolve_ticket, close_ticket, assign_ticket,
  update_status_or_priority,
}
use saas_frontend.Tickets.Sla.{check_sla_breaches}
use saas_frontend.Tickets.Numbered.{IsNumbered, Numbered, Numbered-fresh}
use saas_frontend.Tickets.Opened.{
  insert_all-ok, create-IsNumbered, escalate-IsNumbered, reply-IsNumbered, resolve-IsNumbered,
  close_ticket-IsNumbered, assign-IsNumbered, override-IsNumbered, check_sla-IsNumbered,
}

-- A call of the services.
pub data Command : Type 0 where
  create : SlaHours → ℕ → ℕ → ℕ → TicketPayload → Command
  escalate : SlaHours → ℕ → ℕ → Option ℕ → Text → Command
  reply : ℕ → ℕ → SenderType → ℕ → ReplyPayload → Command
  resolve : ℕ → ℕ → Command
  shut : ℕ → ℕ → Command
  assign : ℕ → ℕ → Command
  override : ℕ → ℕ → Option TicketStatus → Option Priority → Command
  check_sla : ℕ → Command

abbrev pub step : Command → Tickets → Tickets
step (create h now tenant user p) t = (create_ticket h now tenant user p t).1
step (escalate h now tenant order awb) t = (create_from_ndr_escalation h now tenant order awb t).1
step (reply now id sender_type sender p) t = (reply_to_ticket now id sender_type sender p t).1
step (resolve now id) t = (resolve_ticket now id t).1
step (shut id tenant) t = (close_ticket id tenant t).1
step (assign id admin) t = (assign_ticket id admin t).1
step (override now id status priority) t = (update_status_or_priority now id status priority t).1
step (check_sla now) t = (check_sla_breaches now t).1

abbrev pub run : List Command → Tickets → Tickets
run [] t = t
run (c ∷ cs) t = run cs (step c t)

step-IsNumbered : (c : Command) (t : Tickets) → IsNumbered t → IsNumbered (step c t)
step-IsNumbered (create h now tenant user p) t n = create-IsNumbered h now tenant user p t n
step-IsNumbered (escalate h now tenant order awb) t n =
    escalate-IsNumbered h now tenant order awb t n
step-IsNumbered (reply now id sender_type sender p) t n =
    reply-IsNumbered now id sender_type sender p t n
step-IsNumbered (resolve now id) t n = resolve-IsNumbered now id t n
step-IsNumbered (shut id tenant) t n = close_ticket-IsNumbered id tenant t n
step-IsNumbered (assign id admin) t n = assign-IsNumbered id admin t n
step-IsNumbered (override now id status priority) t n =
    override-IsNumbered now id status priority t n
step-IsNumbered (check_sla now) t n = check_sla-IsNumbered now t n

run-IsNumbered : (cs : List Command) (t : Tickets) → IsNumbered t → IsNumbered (run cs t)
run-IsNumbered [] t n = n
run-IsNumbered (c ∷ cs) t n = run-IsNumbered cs (step c t) (step-IsNumbered c t n)

-- Rows of which each has a number that none of the older ones has.
abbrev pub Distinct : List SupportTicket → Type 0
Distinct [] = Unit
Distinct (k ∷ ks) = (find_one (has_number k.ticket_number) ks ≡ none) × Distinct ks

Numbered-Distinct : (bound : ℕ) (ks : List SupportTicket) → Numbered bound ks → Distinct ks
Numbered-Distinct bound [] h = tt
Numbered-Distinct bound (k ∷ ks) (n, below, number, rest) = (
  subst (λ s. find_one (has_number s) ks ≡ none) (sym number)
      (Numbered-fresh n n ks rest (omega arith)),
  Numbered-Distinct n ks rest,
)

-- Whatever the services do, from tickets that are numbered in the order of the counter: no two tickets
-- have one number, and a tenant that refers to orders and shipments of its own gets a ticket, which the
-- unique column of the numbers never refuses.
pub run-Distinct :
    (cs : List Command) (h : SlaHours) (now tenant user : ℕ) (p : TicketPayload) (t : Tickets)
    → IsNumbered t
    → refers_elsewhere tenant p.related_order_id (run cs t).orders ≡ false
    → refers_elsewhere tenant p.related_shipment_id (run cs t).shipments ≡ false
    → Distinct (run cs t).tickets
      × ((id : ℕ) × ((create_ticket h now tenant user p (run cs t)).0 ≡ ok id))
unfolding create_ticket
run-Distinct cs h now tenant user p t n order shipment =
    let u : Tickets = run cs t in
    let numbered = run-IsNumbered cs t n in
    let ((id, went), _) = insert_all-ok h now tenant user p u numbered in
    (Numbered-Distinct _ u.tickets numbered, (id, ground (arith, order, shipment, went)))
