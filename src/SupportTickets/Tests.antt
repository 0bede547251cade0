-- ===== src/SupportTickets/Tests.antt =====
-- The theorems on support tickets, at one ticket.
use prop_chain_back_end.Base.{ℕ, ◌≡◌, refl, [], ◌∷◌, Option, none, some, false}
use prop_chain_back_end.Table.InMemory.{in_memory}
use prop_chain_back_end.SupportTickets.{
  TicketStatus, Priority, Ticket, Note, Database, Store, NoteDto, is_overdue, update_status,
  check_sla_breaches,
}
use prop_chain_back_end.SupportTickets.Responses.{RespondedAt, update_status-RespondedAt}
use prop_chain_back_end.SupportTickets.Breaches.{check_sla_breaches_complete}

abbrev db : Database
db = record { tickets = in_memory Ticket (λ r. r.id); notes = in_memory Note (λ r. r.id) }

abbrev ticket : Option ℕ → Ticket
ticket responded = record {
  id = 3;
  user_id = 1;
  subject = "Login";
  status = TicketStatus.new;
  priority = Priority.high;
  assigned_to_id = some 8;
  sla_deadline = some 500;
  sla_breached = false;
  first_response_at = responded;
  resolved_at = none;
  closed_at = none;
}

abbrev desk : Option ℕ → Store db
desk responded = record { tickets = ticket responded ∷ []; notes = []; sent = [] }

answered : RespondedAt db 3 50 (desk (some 50))
unfolding RespondedAt
answered = (ticket (some 50), refl, refl)

update_status-RespondedAt_example :
    RespondedAt db 3 50
      (update_status db 100 1 3 TicketStatus.in_progress (some "hello") (some 8) (desk (some 50))).1
update_status-RespondedAt_example =
    update_status-RespondedAt db 100 1 3 3 50 TicketStatus.in_progress (some "hello") (some 8)
      (desk (some 50)) answered

abbrev note : NoteDto
note = record { content = "hello"; is_public = none }

check_sla_breaches_complete_example :
    db.tickets.count_where (is_overdue 600) (check_sla_breaches db 600 (desk none)).tickets ≡ 0
check_sla_breaches_complete_example = check_sla_breaches_complete db 600 (desk none)
