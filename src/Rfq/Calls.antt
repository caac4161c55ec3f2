-- ===== src/Rfq/Calls.antt =====
-- modules/rfq/service.py: the operations of any callers, one after another.
use hackathon_open_ai.Prelude.{Dict, String, Bool, Option, none, some, List, [], ◌∷◌}
use hackathon_open_ai.Rfq.Keeps.{Keeps-writes, keeps_rules, Keeps}
use hackathon_open_ai.Rfq.Replay.{remember, resume, once, once_if}
use hackathon_open_ai.Rfq.Frame.{Ignores, frame_rules}
use hackathon_open_ai.Rfq.Actions.{Action, Session}
use hackathon_open_ai.Rfq.Frames.{
  Keeps-start_round, Keeps-dispatch_round, Keeps-get_delivery_status, Keeps-get_quote_status,
  Keeps-compare_collected, Keeps-validate_token, Keeps-get_response_context,
}
use hackathon_open_ai.Rfq.Contracts.{
  CreateRound, SendRound, CompareQuotes, RequestApproval, SendAward, Submission, ResponseContext,
}
use hackathon_open_ai.Rfq.Reservations.{Booking, confirm_reservation}
use hackathon_open_ai.Rfq.Store.{Store, Payload, Result}
use hackathon_open_ai.Rfq.Environment.{Environment, Claims}
use hackathon_open_ai.Rfq.Submitting.{take_quote, submit_quote}
use hackathon_open_ai.Rfq.Answers.{accept_delivered, decline_delivered, accept_award, decline_award}
use hackathon_open_ai.Rfq.Awarding.{award_approved, get_award_status, send_award}
use hackathon_open_ai.Rfq.Approvals.{open_approval, request_approval, decide_approval}
use hackathon_open_ai.Rfq.Comparisons.{compare_quotes}
use hackathon_open_ai.Rfq.Rounds.{create_round}
use hackathon_open_ai.Rfq.Sending.{send_round, get_delivery_status}
use hackathon_open_ai.Rfq.Expiry.{get_quote_status}

-- A call with its arguments.
pub data Call : Type 0 where
  create : CreateRound → Call
  dispatch : SendRound → Call
  track : String → Call
  submit : String → Submission → Option String → Call
  collect : String → Call
  compare : CompareQuotes → Call
  request : RequestApproval → Call
  settle : String → String → String → Bool → String → Option String → Call
  award : SendAward → Call
  follow : String → Call
  accept : String → String → String → Bool → String → Call
  decline : String → String → String → String → Call
  reserve : String → Booking → String → Call

module _ {W : Type 0} (env : Environment W) where
  -- The session after a call, whether it returns or raises.
  unfoldable pub run : Call → Session W → Session W
  run (Call.create c) s = (create_round env c s).1
  run (Call.dispatch c) s = (send_round env c s).1
  run (Call.track id) s = (get_delivery_status env id s).1
  run (Call.submit token submission key) s = (submit_quote env token submission key s).1
  run (Call.collect id) s = (get_quote_status env id s).1
  run (Call.compare c) s = (compare_quotes env c s).1
  run (Call.request c) s = (request_approval env c s).1
  run (Call.settle id actor_type actor approve key reason) s =
      (decide_approval env id actor_type actor approve key reason s).1
  run (Call.award c) s = (send_award env c s).1
  run (Call.follow id) s = (get_award_status env id s).1
  run (Call.accept token respondent hash accepted key) s =
      (accept_award env token respondent hash accepted key s).1
  run (Call.decline token respondent reason key) s =
      (decline_award env token respondent reason key s).1
  run (Call.reserve id booking key) s = (confirm_reservation env id booking key s).1

  unfoldable pub run_all : List Call → Session W → Session W
  unfolding run
  run_all [] s = s
  run_all (c ∷ cs) s = run_all cs (run c s)

-- What is remembered does not matter to `P`.
pub record IgnoresMemory (P : Store → Type 0) : Type 0 where
  pub memory :
      (s : Store) (d : Dict (String × String) (String × Result))
      → P s
      → P (record s { idempotency = d })

module _ {W : Type 0} {P : Store → Type 0} (env : Environment W) (i : IgnoresMemory P) where
  Keeps-remember :
      (operation key : String) (payload : Payload) (result : Result)
      → Keeps P (remember env operation key payload result)
  unfolding remember
  Keeps-remember operation key payload result = Keeps-writes _ λ s. i.memory s _

  Keeps-resume :
      (operation key : String) (payload : Payload) (rest : Action W Result)
      (o : Option (String × Result))
      → Keeps P rest
      → Keeps P (resume env operation key payload rest o)
  unfolding resume
  Keeps-resume operation key payload rest none h = search (keeps_rules, Keeps-remember) depth 20
  Keeps-resume operation key payload rest (some e) h = search keeps_rules depth 20

  pub Keeps-once :
      (operation key : String) (payload : Payload) (rest : Action W Result)
      → Keeps P rest
      → Keeps P (once env operation key payload rest)
  unfolding once
  Keeps-once operation key payload rest h = search (keeps_rules, Keeps-resume) depth 20

-- What is to be shown of `P` for the operations to keep it: of each that writes what `P` is about, of
-- what follows the replay, and of the replay.
pub record Steps {W : Type 0} (P : Store → Type 0) (env : Environment W) : Type 1 where
  pub ignores : Ignores P
  pub once :
      (operation key : String) (payload : Payload) (rest : Action W Result)
      → Keeps P rest
      → Keeps P (once env operation key payload rest)
  pub submission : (c : ResponseContext) (s : Submission) → Keeps P (take_quote env c s)
  pub opening : (c : RequestApproval) → Keeps P (open_approval env c)
  pub decision :
      (id actor_type actor : String) (approve : Bool) (key : String) (reason : Option String)
      → Keeps P (decide_approval env id actor_type actor approve key reason)
  pub award : (c : SendAward) → Keeps P (award_approved env c)
  pub following : (id : String) → Keeps P (get_award_status env id)
  pub acceptance :
      (c : Claims) (respondent hash : String) (accepted : Bool) (key : String)
      → Keeps P (accept_delivered env c respondent hash accepted key)
  pub refusal :
      (c : Claims) (respondent reason key : String)
      → Keeps P (decline_delivered env c respondent reason key)
  pub reservation :
      (id : String) (b : Booking) (key : String) → Keeps P (confirm_reservation env id b key)

module _ {W : Type 0} {P : Store → Type 0} (env : Environment W) (steps : Steps P env) where
  Keeps-once_if :
      (operation : String) (key : Option String) (payload : Payload) (rest : Action W Result)
      → Keeps P rest
      → Keeps P (once_if env operation key payload rest)
  unfolding once_if
  Keeps-once_if operation none payload rest h = h
  Keeps-once_if operation (some key) payload rest h = steps.once operation key payload rest h

  Keeps-submit_quote :
      (token : String) (s : Submission) (key : Option String)
      → Keeps P (submit_quote env token s key)
  unfolding submit_quote
  Keeps-submit_quote token s key =
      search
        (frame_rules, steps.ignores, Keeps-get_response_context, Keeps-once_if, steps.submission)
        depth 60 fits 4000

  Keeps-accept_award :
      (token respondent hash : String) (accepted : Bool) (key : String)
      → Keeps P (accept_award env token respondent hash accepted key)
  unfolding accept_award
  Keeps-accept_award token respondent hash accepted key =
      search (frame_rules, steps.ignores, Keeps-validate_token, steps.once, steps.acceptance) depth
        60 fits 4000

  Keeps-decline_award :
      (token respondent reason key : String)
      → Keeps P (decline_award env token respondent reason key)
  unfolding decline_award
  Keeps-decline_award token respondent reason key =
      search (frame_rules, steps.ignores, Keeps-validate_token, steps.once, steps.refusal) depth 60
        fits 4000

  pub run-keeps : (c : Call) (s : Session W) → P s.store → P (run env c s).store
  unfolding run create_round send_round compare_quotes request_approval send_award
  run-keeps (Call.create c) s =
      (steps.once _ _ (Payload.creating c) _ (Keeps-start_round steps.ignores env c)).at s
  run-keeps (Call.dispatch c) s =
      (steps.once _ _ (Payload.sending c) _ (Keeps-dispatch_round steps.ignores env c)).at s
  run-keeps (Call.track id) s = (Keeps-get_delivery_status steps.ignores env id).at s
  run-keeps (Call.submit token submission key) s = (Keeps-submit_quote token submission key).at s
  run-keeps (Call.collect id) s = (Keeps-get_quote_status steps.ignores env id).at s
  run-keeps (Call.compare c) s =
      (steps.once _ _ (Payload.comparing c) _ (Keeps-compare_collected steps.ignores env c)).at s
  run-keeps (Call.request c) s = (steps.once _ _ (Payload.requesting c) _ (steps.opening c)).at s
  run-keeps (Call.settle id actor_type actor approve key reason) s =
      (steps.decision id actor_type actor approve key reason).at s
  run-keeps (Call.award c) s = (steps.once _ _ (Payload.awarding c) _ (steps.award c)).at s
  run-keeps (Call.follow id) s = (steps.following id).at s
  run-keeps (Call.accept token respondent hash accepted key) s =
      (Keeps-accept_award token respondent hash accepted key).at s
  run-keeps (Call.decline token respondent reason key) s =
      (Keeps-decline_award token respondent reason key).at s
  run-keeps (Call.reserve id booking key) s = (steps.reservation id booking key).at s

  pub run_all-keeps : (cs : List Call) (s : Session W) → P s.store → P (run_all env cs s).store
  unfolding run_all
  run_all-keeps [] s h = h
  run_all-keeps (c ∷ cs) s h = run_all-keeps cs (run env c s) (run-keeps c s h)
