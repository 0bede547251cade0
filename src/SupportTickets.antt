-- ===== src/SupportTickets.antt =====
-- src/support-tickets/support-tickets.service.ts. The time is an argument of each call; log lines and
-- the texts of the notifications are left out.
mod Rows
mod Tests
pub mod Status
pub mod Responses
pub mod Breaches
use prop_chain_back_end.Base.{
  ℕ, zero, suc, ◌+◌, ◌-◌, ◌*◌, ◌/◌, ◌%◌, Bool, true, false, not, ◌&&◌, ◌||◌, List, [], ◌∷◌, ◌++◌,
  map, Option, none, some, String, if◌then◌else◌, or_else, is_some, Action, Result, ok, err,
  not_found, bad_request, forbidden, pure, gets, or_throw, throw_if, modify, ◌>>=◌, ◌>>◌, arith,
  ◌==◌, ltb, includes, filter, str_eq,
}
use prop_chain_back_end.Table.{Table}
unfoldable pub use Rows.*

module _ (db : Database) where
  open db use {tickets, notes}

  abbrev pub update_row : ℕ → (Ticket → Ticket) → Store db → Store db
  update_row id f s = record s { tickets = tickets.update id f s.tickets }

  abbrev pub find_ticket : ℕ → Action (Store db) Ticket
  find_ticket id = do
    found ← gets (λ s. tickets.find_unique id s.tickets)
    or_throw found (not_found "Support ticket not found")

  unfoldable pub create_ticket : ℕ → ℕ → ℕ → CreateTicketDto → Action (Store db) Ticket
  create_ticket now id user_id dto = do
    modify (λ s. record s { tickets = tickets.create (new_ticket now id user_id dto) s.tickets })
    pure (new_ticket now id user_id dto)

  -- `getTicket`
  pub get_ticket : ℕ → Action (Store db) Ticket
  get_ticket id = find_ticket id

  unfoldable pub add_note : ℕ → ℕ → ℕ → NoteDto → ℕ → Action (Store db) Note
  add_note now note_id id dto author_id = do
    ticket ← find_ticket id
    modify
        (λ s. if is_some ticket.first_response_at then s else update_row id (responded_row now) s)
    modify (λ s. record s { notes = notes.create (new_note note_id id author_id dto) s.notes })
    pure (new_note note_id id author_id dto)

  -- `if (actorId && dto.notes) await this.addNote(…)`: only what the call writes matters, since
  -- the ticket was found just before.
  unfoldable pub note_for : ℕ → ℕ → ℕ → Option String → Option ℕ → Store db → Store db
  note_for now note_id id none actor s = s
  note_for now note_id id (some text) none s = s
  note_for now note_id id (some text) (some actor) s =
      if str_eq text ""
      then s
      else (add_note now note_id id (record { content = text; is_public = some true }) actor s).1

  unfoldable pub update_status :
      (now note_id : ℕ) → ℕ → TicketStatus → Option String → Option ℕ → Action (Store db) Ticket
  unfolding note_for
  update_status now note_id id next text actor = do
    ticket ← find_ticket id
    throw_if (not (is_allowed ticket.status next)) (bad_request "Cannot transition")
    modify (update_row id (moved_row now next))
    modify (λ s. record s { sent = (ticket.user_id, ticket_update) ∷ s.sent })
    modify (note_for now note_id id text actor)
    pure (moved_row now next ticket)

  unfoldable pub assign_ticket : ℕ → ℕ → ℕ → Action (Store db) Ticket
  assign_ticket now id agent_id = do
    ticket ← find_ticket id
    modify (update_row id (assigned_row now agent_id))
    modify (λ s. record s { sent = (agent_id, ticket_assigned) ∷ s.sent })
    pure (assigned_row now agent_id ticket)

  -- `checkSlaBreaches`
  unfoldable pub flag_breaches : List Ticket → Store db → Store db
  flag_breaches [] s = s
  flag_breaches (t ∷ ts) s =
      let ids = map (λ (r : Ticket). r.id) (t ∷ ts) in
      record s {
        tickets = tickets.update_many (λ r. includes r.id ids) flagged s.tickets;
        sent = alerts (t ∷ ts) s.sent;
      }

  unfoldable pub check_sla_breaches : ℕ → Store db → Store db
  unfolding flag_breaches
  check_sla_breaches now s = flag_breaches (tickets.find_many (is_overdue now) s.tickets) s
