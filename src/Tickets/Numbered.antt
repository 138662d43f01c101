-- ===== src/Tickets/Numbered.antt =====
-- The numbers of the tickets count down from the last one of the counter.
use saas_frontend.Base.{
  ℕ, ◌+◌, ◌<◌, ◌≤◌, ◌≡◌, refl, sym, ◌∙◌, Bool, true, none, List, [], ◌∷◌, arith, find_one,
  update_where, find_one-update_where, find_one-holds, Option-cases, Bool-cases, inl, inr,
}
use saas_frontend.Base.Text.{Text, codes, text_eq}
use saas_frontend.Billing.Numbering.Format.{drop_prefix, pad_start-injective}
use saas_frontend.Tickets.Defs.{
  SupportTicket, SystemSequence, is_sequence, last_value_of, store_value, support_ticket,
  ticket_number_of, Tickets,
}
use saas_frontend.Tickets.Opening.{has_number}

text_eq_sound : (s t : Text) → text_eq s t ≡ true → s ≡ t
text_eq_sound [] [] e = refl
text_eq_sound (a ∷ s) (b ∷ t) e = grind (arith, text_eq_sound s t)
text_eq_sound [] (b ∷ t) e = cc
text_eq_sound (a ∷ s) [] e = cc

ticket_number_of-injective : (n m : ℕ) → ticket_number_of n ≡ ticket_number_of m → n ≡ m
unfolding ticket_number_of
ticket_number_of-injective n m e = pad_start-injective n m (drop_prefix (codes "TKT-") _ _ e)

-- The rows, the newest first, have ever lower numbers, all of them below a bound.
abbrev pub Numbered : ℕ → List SupportTicket → Type 0
Numbered bound [] = Unit
Numbered bound (k ∷ ks) =
    (n : ℕ) × (n < bound) × (k.ticket_number ≡ ticket_number_of n) × Numbered n ks

abbrev pub IsNumbered : Tickets → Type 0
IsNumbered t = Numbered (last_value_of support_ticket t.sequences + 1) t.tickets

-- A number that is not below the bound is no row's.
pub Numbered-fresh :
    (bound m : ℕ) (ks : List SupportTicket)
    → Numbered bound ks
    → bound ≤ m
    → find_one (has_number (ticket_number_of m)) ks ≡ none
Numbered-fresh bound m [] h l = refl
Numbered-fresh bound m (k ∷ ks) (n, below, number, rest) l =
    elim (Bool-cases (text_eq k.ticket_number (ticket_number_of m))) [
      | inl same ↦
          let e =
            ticket_number_of-injective n m
              (sym number ∙ text_eq_sound k.ticket_number (ticket_number_of m) same) in
          absurd (omega (arith, e, below, l))
      | inr apart ↦ rw apart (Numbered-fresh n m ks rest (omega (arith, below, l)))
    ]

pub Numbered-update_where :
    (bound : ℕ) (p : SupportTicket → Bool) (f : SupportTicket → SupportTicket)
    (ks : List SupportTicket)
    → ((k : SupportTicket) → (f k).ticket_number ≡ k.ticket_number)
    → Numbered bound ks
    → Numbered bound (update_where p f ks)
Numbered-update_where bound p f [] same h = tt
Numbered-update_where bound p f (k ∷ ks) same (n, below, number, rest) =
    let rest' = Numbered-update_where n p f ks same rest in
    elim (Bool-cases (p k)) [
      | inl hit ↦ rw hit (n, below, same k ∙ number, rest')
      | inr miss ↦ rw miss (n, below, number, rest')
    ]

pub last-store_value :
    (key : Text) (n : ℕ) (seqs : List SystemSequence)
    → text_eq key key ≡ true
    → last_value_of key (store_value key n seqs) ≡ n
last-store_value key n seqs own = elim (Option-cases (find_one (is_sequence key) seqs)) [
  | inl missing ↦ ground (arith, missing, own)
  | inr (s, found) ↦
      let hit = find_one-holds (is_sequence key) seqs found in
      let written =
        find_one-update_where (is_sequence key) (is_sequence key) (λ r. record r { last_value = n })
          seqs {x = s} (λ y. refl) found in
      ground (arith, found, written, hit)
]
