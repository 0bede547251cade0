-- ===== src/SupportTickets/Rows.antt =====
-- src/support-tickets/support-tickets.service.ts: the rows, the tables of the service, and what its
-- calls write to one row or compute from one.
use prop_chain_back_end.Base.{
  ℕ, ◌+◌, ◌-◌, ◌*◌, ◌/◌, ◌%◌, Bool, true, false, not, ◌&&◌, ◌||◌, List, [], ◌∷◌, Option, none, some,
  String, if◌then◌else◌, or_else, ltb,
}
use prop_chain_back_end.Table.{Table}

pub data TicketStatus : Type 0 where
  new in_progress waiting_on_customer resolved closed : TicketStatus

pub data Priority : Type 0 where
  critical high medium low : Priority

pub record Ticket : Type 0 where
  pub id : ℕ
  pub user_id : ℕ
  pub subject : String
  pub status : TicketStatus
  pub priority : Priority
  pub assigned_to_id : Option ℕ
  pub sla_deadline : Option ℕ
  pub sla_breached : Bool
  pub first_response_at : Option ℕ
  pub resolved_at : Option ℕ
  pub closed_at : Option ℕ

pub record Note : Type 0 where
  pub id : ℕ
  pub ticket_id : ℕ
  pub author_id : ℕ
  pub content : String
  pub is_public : Bool

pub data Topic : Type 0 where
  ticket_update ticket_assigned sla_breach : Topic

pub record Database : Type 1 where
  pub tickets : Table Ticket (λ r. r.id)
  pub notes : Table Note (λ r. r.id)

-- The tables, and the notifications sent so far, newest first.
pub record Store (db : Database) : Type 0 where
  pub tickets : db.tickets.Rows
  pub notes : db.notes.Rows
  pub sent : List (ℕ × Topic)

abbrev pub status_eq : TicketStatus → TicketStatus → Bool
status_eq new new = true
status_eq in_progress in_progress = true
status_eq waiting_on_customer waiting_on_customer = true
status_eq resolved resolved = true
status_eq closed closed = true
status_eq _ _ = false

abbrev includes_status : TicketStatus → List TicketStatus → Bool
includes_status s [] = false
includes_status s (t ∷ ts) = status_eq t s || includes_status s ts

-- SLA_HOURS
abbrev pub sla_hours : Priority → ℕ
sla_hours critical = 4
sla_hours high = 8
sla_hours medium = 24
sla_hours low = 72

-- VALID_STATUS_TRANSITIONS
abbrev pub valid_transitions : TicketStatus → List TicketStatus
valid_transitions new = in_progress ∷ closed ∷ []
valid_transitions in_progress = waiting_on_customer ∷ resolved ∷ closed ∷ []
valid_transitions waiting_on_customer = in_progress ∷ resolved ∷ closed ∷ []
valid_transitions resolved = closed ∷ in_progress ∷ []
valid_transitions closed = in_progress ∷ []

abbrev pub is_allowed : TicketStatus → TicketStatus → Bool
is_allowed current next = includes_status next (valid_transitions current)

pub record CreateTicketDto : Type 0 where
  pub priority : Option Priority
  pub subject : String

pub record NoteDto : Type 0 where
  pub content : String
  pub is_public : Option Bool

abbrev pub new_note : ℕ → ℕ → ℕ → NoteDto → Note
new_note note_id id author_id dto = record {
  id = note_id;
  ticket_id = id;
  author_id = author_id;
  content = dto.content;
  is_public = or_else dto.is_public true;
}

-- `a ?? now`
abbrev pub first_set : Option ℕ → ℕ → Option ℕ
first_set none now = some now
first_set (some t) now = some t

pub new_ticket : ℕ → ℕ → ℕ → CreateTicketDto → Ticket
new_ticket now id user_id dto = record {
  id = id;
  user_id = user_id;
  subject = dto.subject;
  status = new;
  priority = or_else dto.priority medium;
  assigned_to_id = none;
  sla_deadline = some (now + sla_hours (or_else dto.priority medium) * 60 * 60 * 1000);
  sla_breached = false;
  first_response_at = none;
  resolved_at = none;
  closed_at = none;
}

-- The row that `updateStatus` writes.
abbrev pub moved_row : ℕ → TicketStatus → Ticket → Ticket
moved_row now next t = record t {
  status = next;
  resolved_at = if status_eq next resolved then some now else t.resolved_at;
  closed_at = if status_eq next closed then some now else t.closed_at;
  first_response_at =
      if status_eq next in_progress then first_set t.first_response_at now else t.first_response_at;
}

-- The row that `assignTicket` writes.
abbrev pub assigned_row : ℕ → ℕ → Ticket → Ticket
assigned_row now agent_id t = record t {
  assigned_to_id = some agent_id;
  status = if status_eq t.status new then in_progress else t.status;
  first_response_at = if status_eq t.status new then some now else t.first_response_at;
}

abbrev pub responded_row : ℕ → Ticket → Ticket
responded_row now t = record t { first_response_at = some now }

abbrev pub is_open : TicketStatus → Bool
is_open new = true
is_open in_progress = true
is_open waiting_on_customer = true
is_open _ = false

abbrev pub is_past : Option ℕ → ℕ → Bool
is_past none now = false
is_past (some deadline) now = ltb deadline now

-- The filter of `checkSlaBreaches`.
abbrev pub is_overdue : ℕ → Ticket → Bool
is_overdue now t = not t.sla_breached && is_open t.status && is_past t.sla_deadline now

abbrev pub flagged : Ticket → Ticket
flagged t = record t { sla_breached = true }

abbrev pub alerts : List Ticket → List (ℕ × Topic) → List (ℕ × Topic)
alerts [] sent = sent
alerts (t ∷ ts) sent = elim t.assigned_to_id [
  | none ↦ alerts ts sent
  | some agent ↦ alerts ts ((agent, sla_breach) ∷ sent)
]

-- What `getSlaInfo` answers; the time remaining is given in hours and minutes.
pub record SlaInfo : Type 0 where
  pub deadline : Option ℕ
  pub breached : Bool
  pub time_remaining : Option (ℕ × ℕ)

unfoldable pub sla_info : ℕ → Option ℕ → Bool → SlaInfo
sla_info now none breached = record { deadline = none; breached = breached; time_remaining = none }
sla_info now (some deadline) flag =
    let breached = ltb deadline now || flag in
    let diff = deadline - now in
    record {
      deadline = some deadline;
      breached = breached;
      time_remaining =
          if breached
          then none
          else some (diff / (1000 * 60 * 60), diff % (1000 * 60 * 60) / (1000 * 60));
    }

-- The totals that `getTicketMetrics` adds up from the groups that the database returns.
pub record Metrics : Type 0 where
  pub total : ℕ
  pub open_count : ℕ
  pub resolved_count : ℕ

abbrev pub is_done : TicketStatus → Bool
is_done resolved = true
is_done closed = true
is_done _ = false

-- one group, added to the totals
abbrev pub counted : TicketStatus → ℕ → Metrics → Metrics
counted status n m = record {
  total = m.total + n;
  open_count = if is_open status then m.open_count + n else m.open_count;
  resolved_count = if is_done status then m.resolved_count + n else m.resolved_count;
}

unfoldable pub ticket_metrics : List (TicketStatus × ℕ) → Metrics → Metrics
ticket_metrics [] m = m
ticket_metrics ((status, n) ∷ groups) m = ticket_metrics groups (counted status n m)
