-- ===== src/Tickets/Sla.antt =====
-- The search for tickets that are overdue.
use saas_frontend.Base.{ℕ, Bool, true, ◌&&◌, not, List, [], ◌∷◌, ltb, if◌then◌else◌}
use saas_frontend.Tickets.Defs.{SupportTicket, sla_breach_warning, Tickets, update_ticket, emit}
use saas_frontend.Tickets.Service.{is_resolved, is_closed}

-- `where`: neither resolved nor closed, due before now, and not flagged yet
abbrev pub is_breached : ℕ → SupportTicket → Bool
is_breached now k =
    (not (is_resolved k.status) && not (is_closed k.status))
    && (ltb k.sla_due_at now && not k.sla_breached)

abbrev pub find_all_breached : ℕ → List SupportTicket → List SupportTicket
find_all_breached now [] = []
find_all_breached now (k ∷ ks) =
    let rest = find_all_breached now ks in if is_breached now k then k ∷ rest else rest

abbrev pub flag : SupportTicket → Tickets → Tickets
flag k t =
    emit (sla_breach_warning k.id) (update_ticket k.id (λ r. record r { sla_breached = true }) t)

abbrev pub flag_all : List SupportTicket → Tickets → Tickets
flag_all [] t = t
flag_all (k ∷ ks) t = flag_all ks (flag k t)

-- `checkSlaBreaches`
unfoldable pub check_sla_breaches : ℕ → Tickets → List SupportTicket × Tickets
check_sla_breaches now t = let found = find_all_breached now t.tickets in (found, flag_all found t)
