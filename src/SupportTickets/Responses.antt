-- ===== src/SupportTickets/Responses.antt =====
-- src/support-tickets/support-tickets.service.ts: the time of the first response.
use prop_chain_back_end.Base.{
  ℕ, ◌≡◌, refl, inl, inr, Option-cases, Bool-cases, true, List, ◌∷◌, Option, none, some, String,
  arith, ◌==◌, patch, str_eq,
}
use prop_chain_back_end.Table.Laws.{
  find_unique-update, find_unique-update_self, find_unique-update_ne,
}
use prop_chain_back_end.SupportTickets.{
  TicketStatus, new, Ticket, Topic, ticket_update, Database, Store, NoteDto, moved_row,
  assigned_row, responded_row, update_row, add_note, note_for, update_status, assign_ticket,
}

module _ (db : Database) where
  open db use {tickets, notes}

  -- The ticket has its first response at that time.
  unfoldable pub RespondedAt : ℕ → ℕ → Store db → Type 0
  RespondedAt id at s =
      (t : Ticket) × (tickets.find_unique id s.tickets ≡ some t) × (t.first_response_at ≡ some at)

  update_row-RespondedAt :
      (id j at : ℕ) (f : Ticket → Ticket) (s : Store db)
      → ((t : Ticket) → (f t).id ≡ t.id)
      → ((t : Ticket) → t.first_response_at ≡ some at → (f t).first_response_at ≡ some at)
      → RespondedAt id at s
      → RespondedAt id at (update_row db j f s)
  unfolding RespondedAt
  update_row-RespondedAt id j at f s keeps_id keeps (t, found, set) = (
    patch (λ r. r.id == j) f t,
    ground (arith, find_unique-update tickets id j f s.tickets keeps_id),
    ground (arith, keeps t),
  )

  -- Once a ticket has had its first response, notes keep its time.
  pub add_note-RespondedAt :
      (now note_id id j at author : ℕ) (dto : NoteDto) (s : Store db)
      → RespondedAt id at s
      → RespondedAt id at (add_note db now note_id j dto author s).1
  unfolding add_note RespondedAt
  add_note-RespondedAt now note_id id j at author dto s (t, found, set) =
      elim (Option-cases (tickets.find_unique j s.tickets)) [
        | inl missing ↦ (t, ground arith, set)
        | inr (u, there) ↦ elim (Option-cases u.first_response_at) [
          | inl unset ↦ (
            t,
            ground (
              arith,
              find_unique-update_ne tickets id j (responded_row now) s.tickets (λ r. refl),
            ),
            set,
          )
          | inr (earlier, was_set) ↦ (t, ground arith, set)
        ]
      ]

  note_for-RespondedAt :
      (now note_id id j at : ℕ) (text : Option String) (actor : Option ℕ) (s : Store db)
      → RespondedAt id at s
      → RespondedAt id at (note_for db now note_id j text actor s)
  unfolding note_for
  note_for-RespondedAt now note_id id j at none actor s h = h
  note_for-RespondedAt now note_id id j at (some text) none s h = h
  note_for-RespondedAt now note_id id j at (some text) (some actor) s h =
      elim (Bool-cases (str_eq text "")) [
        | inl empty ↦ rw empty h
        | inr full ↦ rw full (
            add_note-RespondedAt now note_id id j at actor
              (record { content = text; is_public = some true }) s h)
      ]

  sent-RespondedAt :
      (id at : ℕ) (sent : List (ℕ × Topic)) (s : Store db)
      → RespondedAt id at s
      → RespondedAt id at (record s { sent = sent })
  unfolding RespondedAt
  sent-RespondedAt id at sent s h = h

  -- Once a ticket has its first response, a change of status of this or another ticket, with or
  -- without a note, keeps the time of it.
  pub update_status-RespondedAt :
      (now note_id id j at : ℕ) (next : TicketStatus) (text : Option String) (actor : Option ℕ)
      (s : Store db)
      → RespondedAt id at s
      → RespondedAt id at (update_status db now note_id j next text actor s).1
  unfolding update_status
  update_status-RespondedAt now note_id id j at next text actor s h =
      elim (Option-cases (tickets.find_unique j s.tickets)) [
        | inl missing ↦ ground (arith, h)
        | inr (u, there) ↦
            let moved =
              update_row-RespondedAt id j at (moved_row now next) s (λ r. refl)
                (λ r set. ground arith) h in
            let noted =
              note_for-RespondedAt now note_id id j at text actor
                (record (update_row db j (moved_row now next) s) {
                  sent = (u.user_id, ticket_update) ∷ s.sent;
                })
                (sent-RespondedAt id at _ (update_row db j (moved_row now next) s) moved) in
            ground (arith, h, noted)
      ]

  -- For a new ticket that has no response, a note sets the time of the first response, and the
  -- assignment of the ticket after it replaces that time by its own.
  pub assign_ticket_overwrites :
      (now later note_id id author agent : ℕ) (dto : NoteDto) (s : Store db) {t : Ticket}
      → tickets.find_unique id s.tickets ≡ some t
      → t.status ≡ new
      → t.first_response_at ≡ none
      → let s₁ = (add_note db now note_id id dto author s).1 in
        let s₂ = (assign_ticket db later id agent s₁).1 in
        RespondedAt id now s₁ × RespondedAt id later s₂
  unfolding add_note assign_ticket RespondedAt
  assign_ticket_overwrites now later note_id id author agent dto s {t} found fresh unset =
      let noted =
        find_unique-update_self tickets id (responded_row now) s.tickets (λ r. refl) found in
      let assigned =
        find_unique-update_self tickets id (assigned_row later agent)
          (tickets.update id (responded_row now) s.tickets) (λ r. refl) noted in
      (
        (responded_row now t, ground arith, refl),
        (assigned_row later agent (responded_row now t), ground arith, ground arith),
      )
