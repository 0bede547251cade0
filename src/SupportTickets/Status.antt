-- ===== src/SupportTickets/Status.antt =====
-- src/support-tickets/support-tickets.service.ts: the table of status transitions and `updateStatus`.
use prop_chain_back_end.Base.{
  ℕ, ◌≡◌, refl, inl, inr, Option-cases, Bool-cases, true, false, ◌∷◌, Option, none, some, String,
  if◌then◌else◌, ok, err, bad_request, arith, str_eq,
}
use prop_chain_back_end.Table.Laws.{find_unique-update_self}
use prop_chain_back_end.SupportTickets.{
  TicketStatus, resolved, closed, Ticket, ticket_update, Database, Store, status_eq, is_allowed,
  moved_row, responded_row, update_row, add_note, note_for, update_status,
}

module _ (db : Database) where
  open db use {tickets, notes}

  -- What `note_for` does to a ticket: at most it sets the time of the first response.
  pub note_for-status :
      (now note_id id : ℕ) (text : Option String) (actor : Option ℕ) (s : Store db) (t : Ticket)
      → tickets.find_unique id s.tickets ≡ some t
      → (t' : Ticket) × (tickets.find_unique id (note_for db now note_id id text actor s).tickets
          ≡ some t')
        × (t'.status ≡ t.status)
        × (t'.resolved_at ≡ t.resolved_at)
        × (t'.closed_at ≡ t.closed_at)
  unfolding note_for add_note
  note_for-status now note_id id none actor s t found = (t, found, refl, refl, refl)
  note_for-status now note_id id (some text) none s t found = (t, found, refl, refl, refl)
  note_for-status now note_id id (some text) (some actor) s t found =
      elim (Bool-cases (str_eq text "")) [
        | inl empty ↦ (t, ground (arith, found), refl, refl, refl)
        | inr full ↦ elim (Option-cases t.first_response_at) [
          | inl unset ↦ (
            responded_row now t,
            ground (
              arith,
              found,
              find_unique-update_self tickets id (responded_row now) s.tickets (λ r. refl) found,
            ),
            refl,
            refl,
            refl,
          )
          | inr (at, set) ↦ (t, ground (arith, found), refl, refl, refl)
        ]
      ]

  module _ (now note_id id : ℕ) (next : TicketStatus) (text : Option String) (actor : Option ℕ)
      (s : Store db) {t : Ticket} (found : tickets.find_unique id s.tickets ≡ some t) where
    -- A transition that the table does not allow is refused, and nothing is written or sent.
    pub ticket_status_refused :
        is_allowed t.status next ≡ false
        → update_status db now note_id id next text actor s
          ≡ (err (bad_request "Cannot transition"), s)
    unfolding update_status
    ticket_status_refused refusal = ground arith

    -- Where the table allows the transition, updateStatus of a ticket succeeds; the stored ticket
    -- has the new status, a time of resolution exactly renewed by RESOLVED and a time of closing
    -- exactly renewed by CLOSED, also after the note that the call may add.
    pub ticket_status_accepted :
        is_allowed t.status next ≡ true
        → let (r, s') = update_status db now note_id id next text actor s in
          (r ≡ ok (moved_row now next t))
          × ((t' : Ticket) × (tickets.find_unique id s'.tickets ≡ some t')
              × (t'.status ≡ next)
              × (t'.resolved_at ≡ (if status_eq next resolved then some now else t.resolved_at))
              × (t'.closed_at ≡ (if status_eq next closed then some now else t.closed_at)))
    unfolding update_status
    ticket_status_accepted allowed =
        let moved = record (update_row db id (moved_row now next) s) {
          sent = (t.user_id, ticket_update) ∷ s.sent;
        } in
        let (t', kept, a, b, c) =
          note_for-status now note_id id text actor moved (moved_row now next t)
            (find_unique-update_self tickets id (moved_row now next) s.tickets (λ r. refl) found) in
        (ground arith, (t', ground (arith, kept), a, b, c))
