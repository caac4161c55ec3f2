-- ===== src/Rfq/Reservations.antt =====
-- modules/rfq/service.py: `confirm_reservation`.
use hackathon_open_ai.Prelude.{
  ℕ, ◌+◌, String, Bool, true, false, not, ◌&&◌, Option, none, some, ltb, ◌==◌, str_eq, is_blank,
  string_eq, get,
}
use hackathon_open_ai.Value.{Value, Fields}
use hackathon_open_ai.Shared.{ExecutionCode}
use hackathon_open_ai.Rfq.Contracts.{
  Award, award_accepted, Reservation, ReservationStatus, reservation_text, Requirements,
}
use hackathon_open_ai.Rfq.Numerals.{Date, date_text, hour_and_minute}
use hackathon_open_ai.Rfq.Store.{AwardRecord, Result, Payload}
use hackathon_open_ai.Rfq.Environment.{Environment}
use hackathon_open_ai.Rfq.Actions.{Action, pure, reads, guard, or_break, or_refuse, ◌>>=◌, ◌>>◌}
use hackathon_open_ai.Rfq.Lookups.{
  the_round, the_quote, the_award, put_award, put_reservation, bind_reservation, put_status,
  tenant_for_request,
}
use hackathon_open_ai.Rfq.Trail.{now, new_id, audit}
use hackathon_open_ai.Rfq.Replay.{once, operation_of}
use hackathon_open_ai.Rfq.Approvals.{human_context}

-- `event_date: str | date`
pub data EventDate : Type 0 where
  text : String → EventDate
  date : Date → EventDate

-- `str(event_date)`
unfoldable pub event_text : EventDate → String
unfolding date_text
event_text (EventDate.text s) = s
event_text (EventDate.date d) = date_text d

unfoldable pub same_date : Date → Date → Bool
same_date a b = a.year == b.year && a.month == b.month && a.day == b.day

-- The terms of a reservation, and who confirms them.
pub record Booking : Type 0 where
  pub event_date : EventDate
  pub delivery_window : String
  pub people_count : ℕ
  pub confirmed_by : String

unfoldable pub accepted_by : AwardRecord → String → Bool
accepted_by entry name = elim entry.accepted_by [ none ↦ false | some by ↦ str_eq by name ]

unfoldable pub matches_requirements : Requirements → Date → Booking → Bool
unfolding same_date hour_and_minute
matches_requirements r day booking =
    same_date day r.event_date
    && str_eq booking.delivery_window (hour_and_minute r.delivery_time)
    && booking.people_count == r.people_count

unfoldable pub same_terms : Reservation → Date → Booking → Bool
unfolding same_date
same_terms r day booking =
    same_date r.event_date day
    && str_eq r.delivery_window booking.delivery_window
    && r.people_count == booking.people_count
    && str_eq r.confirmed_by booking.confirmed_by

unfoldable pub new_reservation : String → Award → Date → Booking → String → ℕ → Reservation
new_reservation award_id award day booking id time = record {
  reservation_id = id;
  award_id = award_id;
  supplier_id = award.supplier_id;
  procurement_request_id = award.procurement_request_id;
  event_date = day;
  delivery_window = booking.delivery_window;
  people_count = booking.people_count;
  status = ReservationStatus.confirmed;
  confirmed_by = booking.confirmed_by;
  confirmed_at = time;
}

unfoldable pub reserved_award : Award → ℕ → Award
reserved_award a time = record a {
  award_version = a.award_version + 1;
  reservation_status = ReservationStatus.confirmed;
  ready_for_contracting = true;
  updated_at = time;
}

module _ {W : Type 0} (env : Environment W) where
  -- `date.fromisoformat(event_date) if isinstance(event_date, str) else event_date`
  unfoldable pub parsed_date : EventDate → Action W Date
  unfolding pure or_refuse
  parsed_date (EventDate.text s) = or_refuse ExecutionCode.validation_error (env.parse_date s)
  parsed_date (EventDate.date d) = pure d

  unfoldable pub reserve : String → Award → Date → Booking → String → Action W Result
  unfolding ◌>>=◌ ◌>>◌ pure reads or_break get new_id now new_reservation put_reservation
      bind_reservation reserved_award the_award put_award put_status tenant_for_request
      human_context audit reservation_text
  reserve award_id current day booking key = do
    id ← new_id "reservation"
    confirmed_at ← now env
    put_reservation id (new_reservation award_id current day booking id confirmed_at)
    bind_reservation award_id id
    time ← now env
    let completed = reserved_award current time
    entry ← the_award award_id
    put_award award_id (record entry { dto = completed })
    previous ← reads (λ s. get s.procurement_status current.procurement_request_id)
    put_status current.procurement_request_id "READY_FOR_CONTRACTING"
    tenant ← tenant_for_request current.procurement_request_id
    let context = human_context tenant key current.procurement_request_id booking.confirmed_by
    audit env
        (record {
          event_type = "CAPACITY_RESERVED";
          aggregate_type = "reservation";
          aggregate_id = id;
          payload = Fields.end;
          previous_state = none;
          new_state = some (reservation_text ReservationStatus.confirmed);
          origin = "supplier_response";
        })
        context
    audit env
        (record {
          event_type = "PROCUREMENT_READY_FOR_CONTRACTING";
          aggregate_type = "procurement_request";
          aggregate_id = current.procurement_request_id;
          payload =
              Fields.field "award_id" (Value.text award_id)
                (Fields.field "reservation_id" (Value.text id) Fields.end);
          previous_state = previous;
          new_state = some "READY_FOR_CONTRACTING";
          origin = "supplier_response";
        })
        context
    pure (Result.award completed)

  -- An award is reserved once; the same terms again find the reservation that is there.
  unfoldable pub reserve_once :
      String → Award → Date → Booking → String → Option String → Action W Result
  unfolding ◌>>=◌ ◌>>◌ pure reads or_break get guard same_terms reserve
  reserve_once award_id current day booking key (some existing) = do
    found ← reads (λ s. get s.reservations existing)
    reservation ← or_break found
    guard (same_terms reservation day booking) ExecutionCode.idempotency_conflict
    pure (Result.award (record current { idempotent_replay = true }))
  reserve_once award_id current day booking key none = reserve award_id current day booking key

  -- `confirm_reservation` after the replay.
  unfoldable pub confirm_terms : String → Award → Booking → String → Action W Result
  unfolding ◌>>=◌ ◌>>◌ reads get guard award_accepted is_blank parsed_date the_award accepted_by
      the_quote the_round matches_requirements reserve_once
  confirm_terms award_id current booking key = do
    guard (award_accepted current.status) ExecutionCode.invalid_state
    guard (ltb 0 booking.people_count) ExecutionCode.validation_error
    guard (not (is_blank booking.delivery_window)) ExecutionCode.validation_error
    guard (not (is_blank booking.confirmed_by)) ExecutionCode.validation_error
    day ← parsed_date booking.event_date
    entry ← the_award award_id
    guard (accepted_by entry booking.confirmed_by) ExecutionCode.policy_denied
    quote ← the_quote current.approved_quote.quote_id
    round ← the_round quote.dto.rfq_round_id
    guard (matches_requirements round.requirements day booking) ExecutionCode.validation_error
    existing ← reads (λ s. get s.reservation_by_award_id award_id)
    reserve_once award_id current day booking key existing

  unfoldable pub confirm_reservation : String → Booking → String → Action W Result
  unfolding ◌>>=◌ the_award tenant_for_request once operation_of event_text confirm_terms
  confirm_reservation award_id booking key = do
    entry ← the_award award_id
    tenant ← tenant_for_request entry.dto.procurement_request_id
    once env (operation_of tenant "reservation.confirm") key
        (Payload.reserving award_id (event_text booking.event_date) booking.delivery_window
          booking.people_count booking.confirmed_by)
        (confirm_terms award_id entry.dto booking key)
