-- ===== src/Tickets/Breaches.antt =====
-- A check for overdue tickets finds each of them once.
use saas_frontend.Base.{
  ℕ, ◌≤◌, ◌≡◌, refl, ap, sym, subst, Bool, true, List, [], ◌∷◌, arith, ◌==◌, ==_iff, find_one,
  is_some, All, map-All, update_where-All, Bool-cases, inl, inr,
}
use saas_frontend.Tickets.Defs.{SupportTicket, Tickets}
use saas_frontend.Tickets.Sla.{is_breached, find_all_breached, flag, flag_all, check_sla_breaches}

abbrev is_among : List SupportTicket → ℕ → Bool
is_among found id = is_some (find_one (λ k. k.id == id) found)

-- An overdue row is one of those that were found.
abbrev IsFound : ℕ → List SupportTicket → SupportTicket → Type 0
IsFound now found r = is_breached now r ≡ true → is_among found r.id ≡ true

find_all_breached-Breached :
    (now : ℕ) (ks : List SupportTicket)
    → All (λ k. is_breached now k ≡ true) (find_all_breached now ks)
find_all_breached-Breached now [] = tt
find_all_breached-Breached now (k ∷ ks) = elim (Bool-cases (is_breached now k)) [
  | inl late ↦ rw late (late, find_all_breached-Breached now ks)
  | inr fine ↦ rw fine (find_all_breached-Breached now ks)
]

find_all_breached-IsFound :
    (now : ℕ) (ks : List SupportTicket) → All (IsFound now (find_all_breached now ks)) ks
find_all_breached-IsFound now [] = tt
find_all_breached-IsFound now (k ∷ ks) =
    let rest = find_all_breached now ks in
    let found = find_all_breached-IsFound now ks in
    elim (Bool-cases (is_breached now k)) [
      | inl late ↦
          let first : find_all_breached now (k ∷ ks) ≡ k ∷ rest = rw late refl in
          subst (λ f. All (IsFound now f) (k ∷ ks)) (sym first)
            (
              (λ _. ground (arith, ==_iff k.id k.id)),
              map-All (IsFound now rest) (IsFound now (k ∷ rest)) ks
                  (λ r h hit. ground (arith, h hit)) found,
            )
      | inr fine ↦
          let other : find_all_breached now (k ∷ ks) ≡ rest = rw fine refl in
          subst (λ f. All (IsFound now f) (k ∷ ks)) (sym other)
            ((λ hit. absurd (ground arith)), found)
    ]

none_left :
    (now : ℕ) (ks : List SupportTicket) → All (IsFound now []) ks → find_all_breached now ks ≡ []
none_left now [] h = refl
none_left now (k ∷ ks) (out, rest) = elim (Bool-cases (is_breached now k)) [
  | inl late ↦ absurd (ground (arith, out late))
  | inr fine ↦ rw fine (none_left now ks rest)
]

flag_all-none :
    (now : ℕ) (found : List SupportTicket) (t : Tickets)
    → All (IsFound now found) t.tickets
    → find_all_breached now (flag_all found t).tickets ≡ []
flag_all-none now [] t h = none_left now t.tickets h
flag_all-none now (k ∷ ks) t h = flag_all-none now ks (flag k t) (
    update_where-All (IsFound now (k ∷ ks)) (IsFound now ks) (λ (r : SupportTicket). r.id == k.id)
      (λ r. record r { sla_breached = true }) t.tickets (λ r found hit late. absurd (ground arith))
      (λ r found miss late. ground (arith, found late)) h)

-- What is overdue was still to come later.
earlier :
    (now now' : ℕ) (ks : List SupportTicket)
    → now' ≤ now
    → find_all_breached now ks ≡ []
    → find_all_breached now' ks ≡ []
earlier now now' [] l e = refl
earlier now now' (k ∷ ks) l e = ground (arith, l, e, earlier now now' ks l)

-- A check answers overdue tickets alone, and leaves none: a second check at a time that is no later
-- finds no ticket, writes nothing and warns of none.
pub check_sla_breaches-settles :
    (now now' : ℕ) (t : Tickets)
    → now' ≤ now
    → let (found, t') = check_sla_breaches now t in
      All (λ k. is_breached now k ≡ true) found × (check_sla_breaches now' t' ≡ ([], t'))
unfolding check_sla_breaches
check_sla_breaches-settles now now' t l =
    let found = find_all_breached now t.tickets in
    let t' = flag_all found t in
    let none_then : find_all_breached now' t'.tickets ≡ [] =
      earlier now now' t'.tickets l
        (flag_all-none now found t (find_all_breached-IsFound now t.tickets)) in
    (find_all_breached-Breached now t.tickets, ap (λ f. (f, flag_all f t')) none_then)
