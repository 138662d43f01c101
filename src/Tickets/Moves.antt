-- ===== src/Tickets/Moves.antt =====
-- How the status of a ticket changes without an override.
use saas_frontend.Base.{
  ℕ, ◌≡◌, refl, ap, ◌∙◌, subst, Bool, true, false, Option, none, some, ◌==◌, ==_iff, find_one,
  find_one-holds, find_one-update_where, is_some, Option-cases, Bool-cases, inl, inr, ◌⊎◌,
}
use saas_frontend.Tickets.Defs.{
  SupportTicket, TicketStatus, opened, in_progress, waiting_on_tenant, resolved, closed, SenderType,
  tenant_user, platform_admin, Tickets, ticket_by_id, update_ticket,
}
use saas_frontend.Tickets.Opening.{write_message, write_with_files}
use saas_frontend.Tickets.Service.{
  answered_at, ReplyPayload, is_closed, is_resolved, is_note, is_other_tenant, begun, answered,
  write_reply, reply_to_ticket, resolve_ticket, close_ticket, assign_ticket, announce,
}
use saas_frontend.Tickets.Opened.{attach_tables}

-- Work begins with an answer of the platform or an assignment; an answer of the tenant reopens what was
-- resolved, and the tenant closes what was resolved; the platform resolves.
pub data Moves : TicketStatus → TicketStatus → Type 0 where
  stays : {s : TicketStatus} → Moves s s
  begins : Moves opened in_progress
  reopens : Moves resolved in_progress
  shuts : Moves resolved closed
  resolves : {s : TicketStatus} → Moves s resolved

-- A ticket keeps its tenant and its number, the time of its first answer once it has one, and its
-- status moves.
abbrev pub Goes : SupportTicket → SupportTicket → Type 0
Goes k k' =
    (k'.id ≡ k.id)
    × (k'.tenant_id ≡ k.tenant_id)
    × (k'.ticket_number ≡ k.ticket_number)
    × Moves k.status k'.status
    × ((k.first_response_at ≡ none) ⊎ (k'.first_response_at ≡ k.first_response_at))

abbrev pub GoesOn : ℕ → SupportTicket → Tickets → Type 0
GoesOn id k t = (k' : SupportTicket) × (ticket_by_id id t ≡ some k') × Goes k k'

stays_put : (k : SupportTicket) → Goes k k
stays_put k = (refl, refl, refl, stays, inr refl)

update-GoesOn :
    (id id' : ℕ) (k : SupportTicket) (f : SupportTicket → SupportTicket) (t : Tickets)
    → ticket_by_id id t ≡ some k
    → ((r : SupportTicket) → (f r).id ≡ r.id)
    → ((k.id == id') ≡ true → Goes k (f k))
    → GoesOn id k (update_ticket id' f t)
update-GoesOn id id' k f t found same goes =
    let there =
      find_one-update_where (λ (r : SupportTicket). r.id == id) (λ (r : SupportTicket). r.id == id')
        f t.tickets {x = k} (λ y. ap (λ n. n == id) (same y)) found in
    elim (Bool-cases (k.id == id')) [
      | inl hit ↦ (f k, there ∙ rw hit refl, goes hit)
      | inr miss ↦ (k, there ∙ rw miss refl, stays_put k)
    ]

reopens-Moves : (s : TicketStatus) → is_resolved s ≡ true → Moves s in_progress
reopens-Moves resolved done = reopens
reopens-Moves _ done = cc

shuts-Moves : (s : TicketStatus) → is_resolved s ≡ true → Moves s closed
shuts-Moves resolved done = shuts
shuts-Moves _ done = cc

begun-Moves : (s : TicketStatus) → Moves s (begun s)
begun-Moves opened = begins
begun-Moves in_progress = stays
begun-Moves waiting_on_tenant = stays
begun-Moves resolved = stays
begun-Moves closed = stays

answered_at-same : (now : ℕ) (at : Option ℕ) → (at ≡ none) ⊎ (answered_at now at ≡ at)
answered_at-same now none = inl refl
answered_at-same now (some at) = inr refl

answered-Goes :
    (now : ℕ) (sender_type : SenderType) (note : Bool) (k : SupportTicket)
    → Goes k (answered now sender_type note k)
answered-Goes now tenant_user note k = elim (Bool-cases (is_resolved k.status)) [
  | inl done ↦ rw done (refl, refl, refl, reopens-Moves k.status done, inr refl)
  | inr going ↦ rw going (stays_put k)
]
answered-Goes now platform_admin true k = stays_put k
answered-Goes now platform_admin false k =
    (refl, refl, refl, begun-Moves k.status, answered_at-same now k.first_response_at)

reply-GoesOn :
    (now id' : ℕ) (sender_type : SenderType) (sender : ℕ) (p : ReplyPayload) (id : ℕ)
    (k : SupportTicket) (t : Tickets)
    → ticket_by_id id t ≡ some k
    → GoesOn id k (write_reply now sender_type sender p id' t)
reply-GoesOn now id' sender_type sender p id k t found =
    let (tickets, _) =
      attach_tables id' t.next_id sender p.attachments
        (write_message id' sender_type sender p.message (is_note p) t) in
    announced (is_note p) (update_ticket id' (answered now sender_type (is_note p)) t') (
      update-GoesOn id id' k (answered now sender_type (is_note p)) t'
        (ap (find_one (λ (r : SupportTicket). r.id == id)) tickets ∙ found)
        (λ r. (answered-Goes now sender_type (is_note p) r).0)
        (λ _. answered-Goes now sender_type (is_note p) k))
  where
    t' : Tickets
    t' = write_with_files id' sender_type sender p.message (is_note p) p.attachments t

    announced : (note : Bool) (u : Tickets) → GoesOn id k u → GoesOn id k (announce note id' u)
    announced true u h = h
    announced false u h = h

-- A call on a ticket, other than an override.
pub data Plain : Type 0 where
  reply : ℕ → ℕ → SenderType → ℕ → ReplyPayload → Plain
  resolve : ℕ → ℕ → Plain
  shut : ℕ → ℕ → Plain
  assign : ℕ → ℕ → Plain

abbrev pub perform : Plain → Tickets → Tickets
perform (reply now id sender_type sender p) t = (reply_to_ticket now id sender_type sender p t).1
perform (resolve now id) t = (resolve_ticket now id t).1
perform (shut id tenant) t = (close_ticket id tenant t).1
perform (assign id admin) t = (assign_ticket id admin t).1

reply_to_ticket-GoesOn :
    (now id' : ℕ) (sender_type : SenderType) (sender : ℕ) (p : ReplyPayload) (id : ℕ)
    (k : SupportTicket) (t : Tickets)
    → ticket_by_id id t ≡ some k
    → GoesOn id k (reply_to_ticket now id' sender_type sender p t).1
unfolding reply_to_ticket
reply_to_ticket-GoesOn now id' sender_type sender p id k t found =
    let same : GoesOn id k t = (k, found, stays_put k) in
    elim (Option-cases (ticket_by_id id' t)) [
      | inl gone ↦ rw gone same
      | inr (r, found') ↦ elim (Bool-cases (is_other_tenant p.tenant_id r)) [
        | inl foreign ↦ rw (found', foreign) same
        | inr own ↦ elim (Bool-cases (is_closed r.status)) [
          | inl over ↦ rw (found', own, over) same
          | inr going ↦
              rw (found', own, going) (reply-GoesOn now r.id sender_type sender p id k t found)
        ]
      ]
    ]

resolve_ticket-GoesOn :
    (now id' id : ℕ) (k : SupportTicket) (t : Tickets)
    → ticket_by_id id t ≡ some k
    → GoesOn id k (resolve_ticket now id' t).1
unfolding resolve_ticket
resolve_ticket-GoesOn now id' id k t found = elim (Option-cases (ticket_by_id id' t)) [
  | inl gone ↦ rw gone (k, found, stays_put k)
  | inr (r, found') ↦ rw found' (
      update-GoesOn id r.id k (λ x. record x { status = resolved; resolved_at = some now }) t found
        (λ x. refl) (λ _. (refl, refl, refl, resolves, inr refl)))
]

-- Of a ticket that was found by its id, and written to by that id.
update_found-GoesOn :
    (id id' : ℕ) (k r : SupportTicket) (f : SupportTicket → SupportTicket) (t : Tickets)
    → ticket_by_id id t ≡ some k
    → ticket_by_id id' t ≡ some r
    → ((x : SupportTicket) → (f x).id ≡ x.id)
    → Goes r (f r)
    → GoesOn id k (update_ticket r.id f t)
update_found-GoesOn id id' k r f t found found' same goes =
    update-GoesOn id r.id k f t found same (λ hit.
      let e : k.id ≡ id =
        (==_iff k.id id).0 (find_one-holds (λ (x : SupportTicket). x.id == id) t.tickets found) in
      let e' : r.id ≡ id' =
        (==_iff r.id id').0
          (find_one-holds (λ (x : SupportTicket). x.id == id') t.tickets found') in
      let m : k.id ≡ r.id = (==_iff k.id r.id).0 hit in
      let one : r ≡ k = cc (e, e', m, found, found') in
      subst (λ (x : SupportTicket). Goes x (f x)) one goes)

close_ticket-GoesOn :
    (id' tenant id : ℕ) (k : SupportTicket) (t : Tickets)
    → ticket_by_id id t ≡ some k
    → GoesOn id k (close_ticket id' tenant t).1
unfolding close_ticket
close_ticket-GoesOn id' tenant id k t found =
    let same : GoesOn id k t = (k, found, stays_put k) in
    elim (Option-cases (ticket_by_id id' t)) [
      | inl gone ↦ rw gone same
      | inr (r, found') ↦ elim (Bool-cases (r.tenant_id == tenant)) [
        | inr foreign ↦ rw (found', foreign) same
        | inl own ↦ elim (Bool-cases (is_resolved r.status)) [
          | inr going ↦ rw (found', own, going) same
          | inl done ↦
              rw (found', own, done)
                (update_found-GoesOn id id' k r (λ x. record x { status = closed }) t found found'
                  (λ x. refl) (refl, refl, refl, shuts-Moves r.status done, inr refl))
        ]
      ]
    ]

assign_ticket-GoesOn :
    (id' admin id : ℕ) (k : SupportTicket) (t : Tickets)
    → ticket_by_id id t ≡ some k
    → GoesOn id k (assign_ticket id' admin t).1
unfolding assign_ticket
assign_ticket-GoesOn id' admin id k t found =
    let same : GoesOn id k t = (k, found, stays_put k) in
    elim (Option-cases (ticket_by_id id' t)) [
      | inl gone ↦ rw gone same
      | inr (r, found') ↦ elim (Bool-cases (is_some (find_one (λ x. x == admin) t.admins))) [
        | inr nobody ↦ rw (found', nobody) same
        | inl there ↦
            rw (found', there)
              (update_found-GoesOn id id' k r
                (λ x. record x { assigned_to = some admin; status = begun r.status }) t found found'
                (λ x. refl) (refl, refl, refl, begun-Moves r.status, inr refl))
      ]
    ]

-- An answer, a resolution, a closing or an assignment, of whichever ticket and whether it succeeds or
-- fails, leaves every ticket in its table, with its tenant, its number and the time of its first
-- answer, once there is one; its status stays or makes one of four moves: an open ticket is begun, a
-- resolved one reopened or closed, and any may be resolved. So only a resolution takes a ticket out of
-- the status closed.
pub perform-GoesOn :
    (c : Plain) (id : ℕ) (k : SupportTicket) (t : Tickets)
    → ticket_by_id id t ≡ some k
    → GoesOn id k (perform c t)
perform-GoesOn (reply now id' sender_type sender p) id k t found =
    reply_to_ticket-GoesOn now id' sender_type sender p id k t found
perform-GoesOn (resolve now id') id k t found = resolve_ticket-GoesOn now id' id k t found
perform-GoesOn (shut id' tenant) id k t found = close_ticket-GoesOn id' tenant id k t found
perform-GoesOn (assign id' admin) id k t found = assign_ticket-GoesOn id' admin id k t found
