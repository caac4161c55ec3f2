-- ===== src/Rfq/Replays.antt =====
-- modules/rfq/service.py: an idempotency key that is used again.
use hackathon_open_ai.Prelude.{
  if◌then◌else◌, List, ap, sym, subst, String, ◌≡◌, ◌∙◌, refl, str_eq, string_eq, pair_eq,
}
use hackathon_open_ai.Rfq.Actions.{refused, Action, returned, Session}
use hackathon_open_ai.Shared.{ExecutionCode}
use hackathon_open_ai.Rfq.Store.{Store, Payload, Result, replayed}
use hackathon_open_ai.Rfq.Environment.{Environment}
use hackathon_open_ai.Rfq.Replay.{operation_of, once, idempotency_hash}
use hackathon_open_ai.Rfq.Calls.{Call, run_all}
use hackathon_open_ai.Rfq.Contracts.{
  CreateRound, SendRound, CompareQuotes, RequestApproval, SendAward,
}
use hackathon_open_ai.Rfq.Rounds.{start_round, create_round}
use hackathon_open_ai.Rfq.Sending.{dispatch_round, send_round}
use hackathon_open_ai.Rfq.Comparisons.{compare_collected, compare_quotes}
use hackathon_open_ai.Rfq.Approvals.{open_approval, request_approval}
use hackathon_open_ai.Rfq.Awarding.{award_approved, send_award}
use hackathon_open_ai.Rfq.Remembers.{Remembers, once-Remembers, Remembers-later, once-answers}

-- The commands of the operations that take their key from the context of a command.
pub data Command : Type 0 where
  create : CreateRound → Command
  dispatch : SendRound → Command
  compare : CompareQuotes → Command
  request : RequestApproval → Command
  award : SendAward → Command

-- The tenant's operation and the key of a command.
abbrev pub slot : Command → String × String
slot (Command.create c) = (operation_of c.context.tenant_id "rfq.create", c.context.idempotency_key)
slot (Command.dispatch c) = (operation_of c.context.tenant_id "rfq.send", c.context.idempotency_key)
slot (Command.compare c) =
    (operation_of c.context.tenant_id "quotes.compare", c.context.idempotency_key)
slot (Command.request c) =
    (operation_of c.context.tenant_id "approval.request", c.context.idempotency_key)
slot (Command.award c) = (operation_of c.context.tenant_id "award.send", c.context.idempotency_key)

abbrev pub payload_of : Command → Payload
payload_of (Command.create c) = Payload.creating c
payload_of (Command.dispatch c) = Payload.sending c
payload_of (Command.compare c) = Payload.comparing c
payload_of (Command.request c) = Payload.requesting c
payload_of (Command.award c) = Payload.awarding c

module _ {W : Type 0} (env : Environment W) where
  abbrev pub perform : Command → Action W Result
  perform (Command.create c) = create_round env c
  perform (Command.dispatch c) = send_round env c
  perform (Command.compare c) = compare_quotes env c
  perform (Command.request c) = request_approval env c
  perform (Command.award c) = send_award env c

  -- What a command does where its key is new.
  body : Command → Action W Result
  body (Command.create c) = start_round env c
  body (Command.dispatch c) = dispatch_round env c
  body (Command.compare c) = compare_collected env c
  body (Command.request c) = open_approval env c
  body (Command.award c) = award_approved env c

  perform-once : (c : Command) → perform c ≡ once env (slot c).0 (slot c).1 (payload_of c) (body c)
  unfolding body create_round send_round compare_quotes request_approval send_award
  perform-once (Command.create c) = refl
  perform-once (Command.dispatch c) = refl
  perform-once (Command.compare c) = refl
  perform-once (Command.request c) = refl
  perform-once (Command.award c) = refl

  perform-Remembers :
      (c : Command) (s : Session W) (r : Result)
      → (perform c s).0 ≡ returned r
      → Remembers env (slot c).0 (slot c).1 (payload_of c) r (perform c s).1.store
  perform-Remembers c s r h =
      let same = ap (λ f. f s) (perform-once c) in
      subst (λ o. Remembers env (slot c).0 (slot c).1 (payload_of c) r o.1.store) (sym same)
        (once-Remembers env (slot c).0 (slot c).1 (payload_of c) (body c) s r
          (ap (λ o. o.0) (sym same) ∙ h))

  Remembers-slot :
      (x y : String × String) (payload : Payload) (r : Result) (s : Store)
      → x ≡ y
      → Remembers env x.0 x.1 payload r s
      → Remembers env y.0 y.1 payload r s
  Remembers-slot x y payload r s e h = subst (λ z. Remembers env z.0 z.1 payload r s) e h

  -- Of the operations that take a command with its context (`create_round`, `send_round`,
  -- `compare`, `request_approval`, `send_award`): once one returned, a command of the same
  -- operation of the tenant with the same key returns the same result, marked as a replay, if the two
  -- commands have the same hash, and is refused as a conflict if not, whatever calls of the service
  -- came in between, and changes nothing.
  pub replays_or_conflicts :
      (first again : Command) (s : Session W) (r : Result) (cs : List Call)
      → slot first ≡ slot again
      → (perform first s).0 ≡ returned r
      → let later = run_all env cs (perform first s).1 in
        perform again later ≡ (
          if str_eq
                (idempotency_hash env (payload_of first))
                (idempotency_hash env (payload_of again))
              then returned (replayed r)
              else refused ExecutionCode.idempotency_conflict,
          later,
        )
  replays_or_conflicts first again s r cs same h =
      let later = run_all env cs (perform first s).1 in
      let known =
        Remembers-later env (slot first).0 (slot first).1 (payload_of first) r _ cs
          (perform-Remembers first s r h) in
      ap (λ f. f later) (perform-once again)
      ∙ once-answers env (slot again).0 (slot again).1 (payload_of first) (payload_of again)
          (body again) later r
          (Remembers-slot (slot first) (slot again) (payload_of first) r later.store same known)
