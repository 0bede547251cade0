-- ===== src/SupportTickets/Breaches.antt =====
-- src/support-tickets/support-tickets.service.ts: `checkSlaBreaches`, `getSlaInfo` and `getTicketMetrics`.
use prop_chain_back_end.Base.{
  ℕ, ◌+◌, ◌-◌, ◌*◌, ◌/◌, ◌%◌, ◌≡◌, ◌<◌, refl, ◌∙◌, Bool, not, ◌&&◌, ◌||◌, List, [], ◌∷◌, map, none,
  some, if◌then◌else◌, arith, ltb, includes, filter, count, length, patch, count_mono,
}
use prop_chain_back_end.Table.Laws.{count_where-update_many, length-find_many, count_where_mono}
use prop_chain_back_end.SupportTickets.{
  TicketStatus, new, in_progress, waiting_on_customer, resolved, closed, Ticket, Database, Store,
  is_overdue, flagged, check_sla_breaches, flag_breaches, sla_info, Metrics, ticket_metrics,
  counted,
}

abbrev ids : List Ticket → List ℕ
ids ts = map (λ (r : Ticket). r.id) ts

-- Each row that passes a test is among the ids of the rows that the test filters.
count-missed :
    (p : Ticket → Bool) (ts : List Ticket)
    → count (λ r. p r && not (includes r.id (ids (filter p ts)))) ts ≡ 0
count-missed p [] = refl
count-missed p (x ∷ xs) = ground (
  arith,
  count-missed p xs,
  count_mono (λ r. p r && not (includes r.id (x.id ∷ ids (filter p xs))))
      (λ r. p r && not (includes r.id (ids (filter p xs)))) xs (λ r e. ground arith),
)

length-zero : {A : Type 0} (xs : List A) → length xs ≡ 0 → xs ≡ []
length-zero [] e = refl
length-zero (x ∷ xs) e = cc

module _ (db : Database) where
  open db use {tickets}

  count_where-flag_breaches :
      (p : Ticket → Bool) (ts : List Ticket) (s : Store db)
      → tickets.count_where p (flag_breaches db ts s).tickets
        ≡ tickets.count_where (λ r. p (patch (λ r. includes r.id (ids ts)) flagged r)) s.tickets
  unfolding flag_breaches
  count_where-flag_breaches p [] s = refl
  count_where-flag_breaches p (t ∷ ts) s =
      count_where-update_many tickets p (λ r. includes r.id (ids (t ∷ ts))) flagged s.tickets

  none_missed :
      (now : ℕ) (s : Store db)
      → tickets.count_where
          (λ r.
            is_overdue now r
            && not (includes r.id (ids (tickets.find_many (is_overdue now) s.tickets))))
          s.tickets
        ≡ 0
  none_missed now s =
      rw (tickets.find_many_law (is_overdue now) s.tickets, tickets.count_where_law)
        (count-missed (is_overdue now) (tickets.contents s.tickets))

  -- After checkSlaBreaches no open ticket past its deadline is left unflagged.
  pub check_sla_breaches_complete :
      (now : ℕ) (s : Store db)
      → tickets.count_where (is_overdue now) (check_sla_breaches db now s).tickets ≡ 0
  unfolding check_sla_breaches
  check_sla_breaches_complete now s =
      let overdue = tickets.find_many (is_overdue now) s.tickets in
      rw (count_where-flag_breaches (is_overdue now) overdue s) (
        omega (
          arith,
          count_where_mono tickets
              (λ r. is_overdue now (patch (λ r. includes r.id (ids overdue)) flagged r))
              (λ r. is_overdue now r && not (includes r.id (ids overdue))) s.tickets
              (λ r e. ground arith),
          none_missed now s,
        ))

  nothing_overdue :
      (now : ℕ) (s : Store db)
      → tickets.count_where (is_overdue now) s.tickets ≡ 0
      → check_sla_breaches db now s ≡ s
  unfolding check_sla_breaches flag_breaches
  nothing_overdue now s e = rw (
      length-zero (tickets.find_many (is_overdue now) s.tickets)
        (length-find_many tickets (is_overdue now) s.tickets ∙ e))

  -- A second run of checkSlaBreaches at the same time changes nothing and alerts nobody.
  pub check_sla_breaches_idem :
      (now : ℕ) (s : Store db)
      → check_sla_breaches db now (check_sla_breaches db now s) ≡ check_sla_breaches db now s
  check_sla_breaches_idem now s =
      nothing_overdue now (check_sla_breaches db now s) (check_sla_breaches_complete now s)

-- getSlaInfo reports a breach exactly when the deadline has passed or the ticket is flagged;
-- otherwise it gives the time to the deadline in whole minutes, as hours and minutes below sixty.
pub sla_info_lem :
    (now deadline : ℕ) (flag : Bool)
    → let info = sla_info now (some deadline) flag in
      (info.breached ≡ (ltb deadline now || flag))
      × ((h : ℕ) × (m : ℕ) × (info.time_remaining ≡ (if info.breached then none else some (h, m)))
          × (m < 60)
          × (h * 60 + m ≡ (deadline - now) / 60000))
unfolding sla_info
sla_info_lem now deadline flag = (
  refl,
  ((deadline - now) / 3600000, (deadline - now) % 3600000 / 60000, refl, omega arith, omega arith),
)

counted-total :
    (status : TicketStatus) (n : ℕ) (m : Metrics)
    → m.open_count + m.resolved_count ≡ m.total
    → (counted status n m).open_count + (counted status n m).resolved_count
      ≡ (counted status n m).total
counted-total new n m e = omega arith
counted-total in_progress n m e = omega arith
counted-total waiting_on_customer n m e = omega arith
counted-total resolved n m e = omega arith
counted-total closed n m e = omega arith

-- Every status is open or done, so that the two counts make up the total.
pub ticket_metrics_total :
    (groups : List (TicketStatus × ℕ)) (m : Metrics)
    → m.open_count + m.resolved_count ≡ m.total
    → let r = ticket_metrics groups m in r.open_count + r.resolved_count ≡ r.total
unfolding ticket_metrics
ticket_metrics_total [] m e = e
ticket_metrics_total ((status, n) ∷ groups) m e =
    ticket_metrics_total groups (counted status n m) (counted-total status n m e)
