-- ===== src/Rfq/Tests.antt =====
-- modules/rfq: the run of Runs, and the theorems at its steps.
use hackathon_open_ai.Rfq.Reservations.{Booking, confirm_reservation, EventDate}
use hackathon_open_ai.Rfq.Agreed.{Agreed, reservation_agrees}
use hackathon_open_ai.Prelude.{
  values, ◌++◌, String, none, some, [], ◌∷◌, ◌≡◌, refl, get, string_eq, pair_eq,
}
use hackathon_open_ai.Rfq.Lookups.{tenant_in}
use hackathon_open_ai.Rfq.Contracts.{AwardStatus}
use hackathon_open_ai.Rfq.Comparisons.{compare_quotes}
use hackathon_open_ai.Rfq.Recommends.{Recommends, compare_quotes-Recommends}
use hackathon_open_ai.Rfq.Ready.{ready_was_accepted}
use hackathon_open_ai.Rfq.Store.{Result}
use hackathon_open_ai.Rfq.Decided.{decided_by_approver, IsDecision}
use hackathon_open_ai.Rfq.OneAward.{one_award}
use hackathon_open_ai.Rfq.Grounds.{Grounds, award_rests_on_approval}
use hackathon_open_ai.Rfq.Replays.{Command, replays_or_conflicts}
use hackathon_open_ai.Rfq.Actions.{returned, refused}
use hackathon_open_ai.Rfq.Replay.{operation_of, idempotency_hash, normalized}
use hackathon_open_ai.Rfq.Awarding.{send_award}
use hackathon_open_ai.Shared.{ExecutionCode}
use hackathon_open_ai.Rfq.Calls.{Call, run_all}
use hackathon_open_ai.Rfq.Runs.{
  env, award, quoted, comparing, approved, empty, granted, sent, entry, accepted, booking,
  contracted, reserved, answered, other, answer, compared,
}

status_of_request : get (run_all env approved empty).store.procurement_status "p" ≡ some "APPROVED"
unfolding run_all get hackathon_open_ai.Rfq.Approvals.decide_approval
    hackathon_open_ai.Rfq.Approvals.request_approval
    hackathon_open_ai.Rfq.Comparisons.compare_quotes hackathon_open_ai.Rfq.Submitting.submit_quote
    hackathon_open_ai.Rfq.Sending.send_round hackathon_open_ai.Rfq.Rounds.create_round pair_eq
    string_eq
status_of_request = refl

granted_found : get (run_all env approved empty).store.approvals "approval_0001" ≡ some granted
unfolding run_all get hackathon_open_ai.Rfq.Approvals.decide_approval
    hackathon_open_ai.Rfq.Approvals.request_approval
    hackathon_open_ai.Rfq.Comparisons.compare_quotes hackathon_open_ai.Rfq.Submitting.submit_quote
    hackathon_open_ai.Rfq.Sending.send_round hackathon_open_ai.Rfq.Rounds.create_round pair_eq
    string_eq
granted_found = refl

entry_found :
    get (run_all env (approved ++ Call.award award ∷ []) empty).store.awards "award_0001"
    ≡ some entry
unfolding run_all get hackathon_open_ai.Rfq.Approvals.decide_approval
    hackathon_open_ai.Rfq.Approvals.request_approval
    hackathon_open_ai.Rfq.Comparisons.compare_quotes hackathon_open_ai.Rfq.Submitting.submit_quote
    hackathon_open_ai.Rfq.Sending.send_round hackathon_open_ai.Rfq.Rounds.create_round pair_eq
    string_eq send_award
entry_found = refl

fresh :
    get (run_all env approved empty).store.idempotency (operation_of "t" "award.send", "award")
    ≡ none
unfolding run_all get hackathon_open_ai.Rfq.Approvals.decide_approval
    hackathon_open_ai.Rfq.Approvals.request_approval
    hackathon_open_ai.Rfq.Comparisons.compare_quotes hackathon_open_ai.Rfq.Submitting.submit_quote
    hackathon_open_ai.Rfq.Sending.send_round hackathon_open_ai.Rfq.Rounds.create_round pair_eq
    string_eq
fresh = refl

returns : (send_award env award (run_all env approved empty)).0 ≡ returned (Result.award sent)
unfolding send_award run_all get hackathon_open_ai.Rfq.Approvals.decide_approval
    hackathon_open_ai.Rfq.Approvals.request_approval
    hackathon_open_ai.Rfq.Comparisons.compare_quotes hackathon_open_ai.Rfq.Submitting.submit_quote
    hackathon_open_ai.Rfq.Sending.send_round hackathon_open_ai.Rfq.Rounds.create_round pair_eq
    string_eq
returns = refl

status_after :
    get (run_all env contracted empty).store.procurement_status "p" ≡ some "READY_FOR_CONTRACTING"
unfolding run_all get hackathon_open_ai.Rfq.Approvals.decide_approval
    hackathon_open_ai.Rfq.Approvals.request_approval
    hackathon_open_ai.Rfq.Comparisons.compare_quotes hackathon_open_ai.Rfq.Submitting.submit_quote
    hackathon_open_ai.Rfq.Sending.send_round hackathon_open_ai.Rfq.Rounds.create_round pair_eq
    string_eq send_award hackathon_open_ai.Rfq.Answers.accept_award
    hackathon_open_ai.Rfq.Reservations.confirm_reservation
status_after = refl

reserved_found : get (run_all env contracted empty).store.awards "award_0001" ≡ some reserved
unfolding run_all get hackathon_open_ai.Rfq.Approvals.decide_approval
    hackathon_open_ai.Rfq.Approvals.request_approval
    hackathon_open_ai.Rfq.Comparisons.compare_quotes hackathon_open_ai.Rfq.Submitting.submit_quote
    hackathon_open_ai.Rfq.Sending.send_round hackathon_open_ai.Rfq.Rounds.create_round pair_eq
    string_eq send_award hackathon_open_ai.Rfq.Answers.accept_award
    hackathon_open_ai.Rfq.Reservations.confirm_reservation
reserved_found = refl

answered_found : get (run_all env accepted empty).store.awards "award_0001" ≡ some answered
unfolding run_all get hackathon_open_ai.Rfq.Approvals.decide_approval
    hackathon_open_ai.Rfq.Approvals.request_approval
    hackathon_open_ai.Rfq.Comparisons.compare_quotes hackathon_open_ai.Rfq.Submitting.submit_quote
    hackathon_open_ai.Rfq.Sending.send_round hackathon_open_ai.Rfq.Rounds.create_round pair_eq
    string_eq send_award hackathon_open_ai.Rfq.Answers.accept_award
    hackathon_open_ai.Rfq.Reservations.confirm_reservation
answered_found = refl

tenant_found : tenant_in (values (run_all env accepted empty).store.rounds) "p" ≡ some "t"
unfolding tenant_in values run_all get hackathon_open_ai.Rfq.Approvals.decide_approval
    hackathon_open_ai.Rfq.Approvals.request_approval
    hackathon_open_ai.Rfq.Comparisons.compare_quotes hackathon_open_ai.Rfq.Submitting.submit_quote
    hackathon_open_ai.Rfq.Sending.send_round hackathon_open_ai.Rfq.Rounds.create_round pair_eq
    string_eq send_award hackathon_open_ai.Rfq.Answers.accept_award
    hackathon_open_ai.Rfq.Reservations.confirm_reservation
tenant_found = refl

fresh_reservation :
    get
      (run_all env accepted empty).store.idempotency
      (operation_of "t" "reservation.confirm", "reserve")
    ≡ none
unfolding run_all get hackathon_open_ai.Rfq.Approvals.decide_approval
    hackathon_open_ai.Rfq.Approvals.request_approval
    hackathon_open_ai.Rfq.Comparisons.compare_quotes hackathon_open_ai.Rfq.Submitting.submit_quote
    hackathon_open_ai.Rfq.Sending.send_round hackathon_open_ai.Rfq.Rounds.create_round pair_eq
    string_eq send_award hackathon_open_ai.Rfq.Answers.accept_award
    hackathon_open_ai.Rfq.Reservations.confirm_reservation
fresh_reservation = refl

reserves :
    (confirm_reservation env "award_0001" booking "reserve" (run_all env accepted empty)).0
    ≡ returned (Result.award reserved.dto)
unfolding run_all get hackathon_open_ai.Rfq.Approvals.decide_approval
    hackathon_open_ai.Rfq.Approvals.request_approval
    hackathon_open_ai.Rfq.Comparisons.compare_quotes hackathon_open_ai.Rfq.Submitting.submit_quote
    hackathon_open_ai.Rfq.Sending.send_round hackathon_open_ai.Rfq.Rounds.create_round pair_eq
    string_eq send_award hackathon_open_ai.Rfq.Answers.accept_award
    hackathon_open_ai.Rfq.Reservations.confirm_reservation
reserves = refl

reservation_agrees_example : Agreed env "award_0001" booking (run_all env accepted empty).store
reservation_agrees_example =
    reservation_agrees env "award_0001" booking "reserve" "t" answered (run_all env accepted empty)
      (Result.award reserved.dto) answered_found tenant_found fresh_reservation reserves

ready_was_accepted_example :
    (reserved.dto.status ≡ AwardStatus.accepted)
    × (reserved.dto.accepted_terms_hash ≡ some reserved.dto.terms_snapshot_hash)
ready_was_accepted_example =
    ready_was_accepted env contracted empty "award_0001" reserved refl reserved_found refl

decided_by_approver_example : granted.decided_by_user_id ≡ some granted.approver_user_id
decided_by_approver_example =
    decided_by_approver env approved empty "approval_0001" granted refl granted_found
      IsDecision.granted

one_award_example : ◌≡◌ {A = String} "award_0001" "award_0001"
one_award_example =
    one_award env (approved ++ Call.award award ∷ []) empty "award_0001" "award_0001" entry entry
      refl entry_found entry_found refl

award_rests_on_approval_example :
    Grounds env award (run_all env approved empty).store (Result.award sent)
award_rests_on_approval_example =
    award_rests_on_approval env award (run_all env approved empty) (Result.award sent) fresh returns

replays_or_conflicts_example :
    let later = run_all env answer (send_award env award (run_all env approved empty)).1 in
    send_award env other later ≡ (refused ExecutionCode.idempotency_conflict, later)
unfolding idempotency_hash normalized
replays_or_conflicts_example =
    replays_or_conflicts env (Command.award award) (Command.award other)
      (run_all env approved empty) (Result.award sent) answer refl returns

returns_comparison :
    (compare_quotes env comparing (run_all env quoted empty)).0
    ≡ returned (Result.comparison compared)
unfolding run_all get compare_quotes hackathon_open_ai.Rfq.Submitting.submit_quote
    hackathon_open_ai.Rfq.Sending.send_round hackathon_open_ai.Rfq.Rounds.create_round pair_eq
    string_eq
returns_comparison = refl

fresh_comparison :
    get (run_all env quoted empty).store.idempotency (operation_of "t" "quotes.compare", "compare")
    ≡ none
unfolding run_all get hackathon_open_ai.Rfq.Submitting.submit_quote
    hackathon_open_ai.Rfq.Sending.send_round hackathon_open_ai.Rfq.Rounds.create_round pair_eq
    string_eq
fresh_comparison = refl

compare_quotes-Recommends_example : Recommends comparing (Result.comparison compared)
compare_quotes-Recommends_example =
    compare_quotes-Recommends env comparing (run_all env quoted empty) (Result.comparison compared)
      fresh_comparison returns_comparison
