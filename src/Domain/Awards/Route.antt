-- ===== src/Domain/Awards/Route.antt =====
-- The lifecycle of an award, stated by where each state leads and by what the fields must hold in it,
-- and that each transition of domain/awards/aggregate.py is a step of it.
use hackathon_open_ai.Prelude.{ℕ, String, none, some, true, List, [], ◌∷◌, ◌≡◌, arith, IsPresent}
use hackathon_open_ai.Contracts.{contains, AwardStatus, award_status_enum, award_status_index}
use hackathon_open_ai.Domain.Common.Lifecycle.{StepOf}
use hackathon_open_ai.Domain.Awards.Facts.{AwardFacts}

abbrev pub successors : AwardStatus → List AwardStatus
successors AwardStatus.created = AwardStatus.sent ∷ []
successors AwardStatus.sent = AwardStatus.accepted ∷ AwardStatus.declined ∷ []
successors _ = []

-- The delivery was acknowledged.
abbrev pub HasDelivery : AwardFacts → Type 0
HasDelivery f = IsPresent f.delivery_ack_id × IsPresent f.sent_at

-- The supplier answered.
abbrev pub HasResponse : AwardFacts → Type 0
HasResponse f =
    HasDelivery f
    × IsPresent f.response_submission_id
    × IsPresent f.respondent_id
    × IsPresent f.responded_at

-- What the fields hold in each state.
abbrev pub Backing : AwardStatus → AwardFacts → Type 0
Backing AwardStatus.created f = (f.delivery_ack_id ≡ none) × (f.response_submission_id ≡ none)
Backing AwardStatus.sent f = HasDelivery f
Backing AwardStatus.accepted f = HasResponse f
Backing AwardStatus.declined f = HasResponse f

abbrev pub Step : AwardStatus → AwardFacts → AwardStatus → AwardFacts → Type 0
Step = StepOf award_status_enum successors Backing

-- The test of `_require_state` passed.
abbrev Allowed : List AwardStatus → AwardStatus → Type 0
Allowed allowed s = contains ⦃e = award_status_enum⦄ allowed s ≡ true

module _ (s : AwardStatus) (f : AwardFacts) where
  pub Step-to_sent :
      (ack : String) (at : ℕ)
      → Allowed (AwardStatus.created ∷ []) s
      → Step s f AwardStatus.sent (record f { delivery_ack_id = some ack; sent_at = some at })
  unfolding contains award_status_index
  Step-to_sent ack at h = ground arith

  pub Step-to_accepted :
      (r : String × String × ℕ)
      → Allowed (AwardStatus.sent ∷ []) s
      → Step s f AwardStatus.accepted (record f {
        response_submission_id = some r.0;
        respondent_id = some r.1;
        responded_at = some r.2;
      })
  unfolding contains award_status_index
  Step-to_accepted r h = ground arith

  pub Step-to_declined :
      (r : String × String × ℕ)
      → Allowed (AwardStatus.sent ∷ []) s
      → Step s f AwardStatus.declined (record f {
        response_submission_id = some r.0;
        respondent_id = some r.1;
        responded_at = some r.2;
      })
  unfolding contains award_status_index
  Step-to_declined r h = ground arith

pub ruleset step_rules = (Step-to_sent, Step-to_accepted, Step-to_declined)
