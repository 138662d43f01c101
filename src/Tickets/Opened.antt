-- ===== src/Tickets/Opened.antt =====
-- What each call does to the numbers of the tickets: a ticket that is opened, and one that is written to.
use saas_frontend.Base.{
  >>=-returns, ℕ, ◌+◌, ◌≡◌, refl, sym, ◌==◌, subst, Bool, true, false, Option, none, some, List, [],
  ◌∷◌, Result, is_some, ok, err, arith, find_one, Option-cases, Bool-cases, inl, inr,
}
use saas_frontend.Base.Text.{Text}
use saas_frontend.Tickets.Defs.{
  not_null_violation, tenant_user, Category, Attached, SupportTicket, SenderType, platform_admin,
  Priority, TicketStatus, Tickets, Error, close, SlaHours, last_value_of, store_value,
  support_ticket, ticket_number_of, update_ticket, ticket_by_id, generate_next_sequence,
}
use saas_frontend.Tickets.Opening.{
  write_with_files, write_message, open_with, insert_ticket, create_row, values_of, TicketValues,
  TicketPayload, has_number, refers_elsewhere, insert_all, create_ticket,
  create_from_ndr_escalation, attach,
}
use saas_frontend.Tickets.Service.{
  announce, is_resolved, override_status, is_note, override_priority, write_reply, answered,
  is_closed, is_other_tenant, ReplyPayload, reply_to_ticket, resolve_ticket, close_ticket,
  assign_ticket, update_status_or_priority,
}
use saas_frontend.Tickets.Sla.{find_all_breached, flag_all, check_sla_breaches}
use saas_frontend.Tickets.Numbered.{
  IsNumbered, Numbered, Numbered-fresh, Numbered-update_where, last-store_value,
}

pub attach_tables :
    (ticket message by : ℕ) (files : List Attached) (t : Tickets)
    → ((attach ticket message by files t).tickets ≡ t.tickets)
      × ((attach ticket message by files t).sequences ≡ t.sequences)
attach_tables ticket message by [] t = (refl, refl)
attach_tables ticket message by (file ∷ files) t = attach_tables ticket message by files _

IsNumbered-same :
    (t u : Tickets)
    → t.tickets ≡ u.tickets
    → t.sequences ≡ u.sequences
    → IsNumbered u
    → IsNumbered t
IsNumbered-same t u same same' h = rw (same, same') h

update_ticket-IsNumbered :
    (id : ℕ) (f : SupportTicket → SupportTicket) (t : Tickets)
    → ((k : SupportTicket) → (f k).ticket_number ≡ k.ticket_number)
    → IsNumbered t
    → IsNumbered (update_ticket id f t)
update_ticket-IsNumbered id f t same h =
    Numbered-update_where _ (λ k. k.id == id) f t.tickets same h

create_row-fresh :
    (v : TicketValues) (by : ℕ) (c : Category) (t : Tickets)
    → v.created_by ≡ some by
    → v.category ≡ some c
    → find_one (has_number v.ticket_number) t.tickets ≡ none
    → create_row v t ≡ (ok t.next_id, insert_ticket v c by t)
create_row-fresh v by c t who what fresh = ground (arith, who, what, fresh)

counted : Tickets → Tickets
counted t = record t {
  sequences = store_value support_ticket (last_value_of support_ticket t.sequences + 1) t.sequences;
}

insert_all-opens :
    (h : SlaHours) (now tenant user : ℕ) (p : TicketPayload) (t : Tickets)
    → IsNumbered t
    → insert_all h now tenant user p t
      ≡ open_with user p t.next_id (
          insert_ticket
            (values_of h now tenant user p
              (ticket_number_of (last_value_of support_ticket t.sequences + 1)))
            p.category
            user
            (counted t))
unfolding generate_next_sequence counted
insert_all-opens h now tenant user p t numbered =
    let n = last_value_of support_ticket t.sequences + 1 in
    let v = values_of h now tenant user p (ticket_number_of n) in
    >>=-returns (create_row v) (open_with user p) (counted t) (
      create_row-fresh v user p.category (counted t) refl refl
        (Numbered-fresh n n t.tickets numbered (omega arith)))

pub insert_all-ok :
    (h : SlaHours) (now tenant user : ℕ) (p : TicketPayload) (t : Tickets)
    → IsNumbered t
    → ((id : ℕ) × ((insert_all h now tenant user p t).0 ≡ ok id))
      × IsNumbered (insert_all h now tenant user p t).1
unfolding counted
insert_all-ok h now tenant user p t numbered =
    let n = last_value_of support_ticket t.sequences + 1 in
    let u =
      insert_ticket (values_of h now tenant user p (ticket_number_of n)) p.category user
        (counted t) in
    let written = write_message t.next_id tenant_user user p.message false u in
    let (tickets, sequences) = attach_tables t.next_id u.next_id user p.attachments written in
    let last = last-store_value support_ticket n t.sequences refl in
    let row : Numbered (last_value_of support_ticket u.sequences + 1) u.tickets =
      (n, omega (arith, last), refl, numbered) in
    rw (insert_all-opens h now tenant user p t numbered) (
      (t.next_id, refl),
      IsNumbered-same (write_with_files t.next_id tenant_user user p.message false p.attachments u)
          u tickets sequences row,
    )

close-IsNumbered :
    {A : Type 0} (t : Tickets) (r : Result Error A × Tickets)
    → IsNumbered t
    → IsNumbered r.1
    → IsNumbered (close t r).1
close-IsNumbered t (ok a, t') h h' = h'
close-IsNumbered t (err e, t') h h' = h

pub create-IsNumbered :
    (h : SlaHours) (now tenant user : ℕ) (p : TicketPayload) (t : Tickets)
    → IsNumbered t
    → IsNumbered (create_ticket h now tenant user p t).1
unfolding create_ticket
create-IsNumbered h now tenant user p t numbered =
    elim (Bool-cases (refers_elsewhere tenant p.related_order_id t.orders)) [
      | inl foreign ↦ rw foreign numbered
      | inr own ↦ elim (Bool-cases (refers_elsewhere tenant p.related_shipment_id t.shipments)) [
        | inl foreign ↦ rw (own, foreign) numbered
        | inr own' ↦
            let (_, kept) = insert_all-ok h now tenant user p t numbered in
            rw (own, own') (close-IsNumbered t (insert_all h now tenant user p t) numbered kept)
      ]
    ]

pub create_from_ndr_escalation-refused :
    (h : SlaHours) (now tenant : ℕ) (order : Option ℕ) (awb : Text) (t : Tickets)
    → create_from_ndr_escalation h now tenant order awb t ≡ (err not_null_violation, t)
unfolding create_from_ndr_escalation generate_next_sequence
create_from_ndr_escalation-refused h now tenant order awb t = refl

answered_number :
    (now : ℕ) (sender_type : SenderType) (note : Bool) (k : SupportTicket)
    → (answered now sender_type note k).ticket_number ≡ k.ticket_number
answered_number now tenant_user note k = ground arith
answered_number now platform_admin true k = refl
answered_number now platform_admin false k = refl

announce-IsNumbered :
    (note : Bool) (id : ℕ) (t : Tickets) → IsNumbered t → IsNumbered (announce note id t)
announce-IsNumbered true id t h = h
announce-IsNumbered false id t h = h

write_reply-IsNumbered :
    (now : ℕ) (sender_type : SenderType) (sender : ℕ) (p : ReplyPayload) (id : ℕ) (t : Tickets)
    → IsNumbered t
    → IsNumbered (write_reply now sender_type sender p id t)
write_reply-IsNumbered now sender_type sender p id t h =
    let written = write_message id sender_type sender p.message (is_note p) t in
    let (tickets, sequences) = attach_tables id t.next_id sender p.attachments written in
    let t' = write_with_files id sender_type sender p.message (is_note p) p.attachments t in
    announce-IsNumbered (is_note p) id _ (
      update_ticket-IsNumbered id (answered now sender_type (is_note p)) t'
        (answered_number now sender_type (is_note p)) (IsNumbered-same t' t tickets sequences h))

pub reply-IsNumbered :
    (now id : ℕ) (sender_type : SenderType) (sender : ℕ) (p : ReplyPayload) (t : Tickets)
    → IsNumbered t
    → IsNumbered (reply_to_ticket now id sender_type sender p t).1
unfolding reply_to_ticket
reply-IsNumbered now id sender_type sender p t h = elim (Option-cases (ticket_by_id id t)) [
  | inl gone ↦ rw gone h
  | inr (k, found) ↦ elim (Bool-cases (is_other_tenant p.tenant_id k)) [
    | inl foreign ↦ rw (found, foreign) h
    | inr own ↦ elim (Bool-cases (is_closed k.status)) [
      | inl over ↦ rw (found, own, over) h
      | inr going ↦
          rw (found, own, going) (write_reply-IsNumbered now sender_type sender p k.id t h)
    ]
  ]
]

flag_all-IsNumbered :
    (found : List SupportTicket) (t : Tickets) → IsNumbered t → IsNumbered (flag_all found t)
flag_all-IsNumbered [] t h = h
flag_all-IsNumbered (k ∷ ks) t h =
    flag_all-IsNumbered ks _ (update_ticket-IsNumbered k.id _ t (λ _. refl) h)

pub resolve-IsNumbered :
    (now id : ℕ) (t : Tickets) → IsNumbered t → IsNumbered (resolve_ticket now id t).1
unfolding resolve_ticket
resolve-IsNumbered now id t n = elim (Option-cases (ticket_by_id id t)) [
  | inl gone ↦ rw gone n
  | inr (k, found) ↦ rw found (update_ticket-IsNumbered k.id _ t (λ _. refl) n)
]

pub close_ticket-IsNumbered :
    (id tenant : ℕ) (t : Tickets) → IsNumbered t → IsNumbered (close_ticket id tenant t).1
unfolding close_ticket
close_ticket-IsNumbered id tenant t n = elim (Option-cases (ticket_by_id id t)) [
  | inl gone ↦ rw gone n
  | inr (k, found) ↦ elim (Bool-cases (k.tenant_id == tenant)) [
    | inr foreign ↦ rw (found, foreign) n
    | inl own ↦ elim (Bool-cases (is_resolved k.status)) [
      | inr going ↦ rw (found, own, going) n
      | inl done ↦ rw (found, own, done) (update_ticket-IsNumbered k.id _ t (λ _. refl) n)
    ]
  ]
]

pub assign-IsNumbered :
    (id admin : ℕ) (t : Tickets) → IsNumbered t → IsNumbered (assign_ticket id admin t).1
unfolding assign_ticket
assign-IsNumbered id admin t n = elim (Option-cases (ticket_by_id id t)) [
  | inl gone ↦ rw gone n
  | inr (k, found) ↦ elim (Bool-cases (is_some (find_one (λ x. x == admin) t.admins))) [
    | inr nobody ↦ rw (found, nobody) n
    | inl there ↦ rw (found, there) (update_ticket-IsNumbered k.id _ t (λ _. refl) n)
  ]
]

pub override-IsNumbered :
    (now id : ℕ) (status : Option TicketStatus) (priority : Option Priority) (t : Tickets)
    → IsNumbered t
    → IsNumbered (update_status_or_priority now id status priority t).1
unfolding update_status_or_priority
override-IsNumbered now id status priority t n = elim (Option-cases (ticket_by_id id t)) [
  | inl gone ↦ rw gone n
  | inr (k, found) ↦ rw found (
      update_ticket-IsNumbered k.id (λ r. override_priority priority (override_status now status r))
        t (λ r. ground arith) n)
]

pub check_sla-IsNumbered :
    (now : ℕ) (t : Tickets) → IsNumbered t → IsNumbered (check_sla_breaches now t).1
unfolding check_sla_breaches
check_sla-IsNumbered now t n = flag_all-IsNumbered (find_all_breached now t.tickets) t n

pub escalate-IsNumbered :
    (h : SlaHours) (now tenant : ℕ) (order : Option ℕ) (awb : Text) (t : Tickets)
    → IsNumbered t
    → IsNumbered (create_from_ndr_escalation h now tenant order awb t).1
escalate-IsNumbered h now tenant order awb t n =
    subst (λ (r : Result Error ℕ × Tickets). IsNumbered r.1)
      (sym (create_from_ndr_escalation-refused h now tenant order awb t)) n
