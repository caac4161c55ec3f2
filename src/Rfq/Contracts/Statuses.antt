-- ===== src/Rfq/Contracts/Statuses.antt =====
-- modules/rfq/contracts.py and modules/messaging/gateway.py: the enumerations, with their texts.
use hackathon_open_ai.Prelude.{String, Bool, true, false}

pub data ActorType : Type 0 where
  agent human system : ActorType

unfoldable pub actor_text : ActorType → String
actor_text ActorType.agent = "agent"
actor_text ActorType.human = "human"
actor_text ActorType.system = "system"

pub data DeliveryChannel : Type 0 where
  email manual_link : DeliveryChannel

unfoldable pub channel_text : DeliveryChannel → String
channel_text DeliveryChannel.email = "email"
channel_text DeliveryChannel.manual_link = "manual_link"

pub data RfqRoundStatus : Type 0 where
  draft dispatching active closed failed : RfqRoundStatus

unfoldable pub round_text : RfqRoundStatus → String
round_text RfqRoundStatus.draft = "DRAFT"
round_text RfqRoundStatus.dispatching = "DISPATCHING"
round_text RfqRoundStatus.active = "ACTIVE"
round_text RfqRoundStatus.closed = "CLOSED"
round_text RfqRoundStatus.failed = "FAILED"

unfoldable pub same_round_status : RfqRoundStatus → RfqRoundStatus → Bool
same_round_status RfqRoundStatus.draft RfqRoundStatus.draft = true
same_round_status RfqRoundStatus.dispatching RfqRoundStatus.dispatching = true
same_round_status RfqRoundStatus.active RfqRoundStatus.active = true
same_round_status RfqRoundStatus.closed RfqRoundStatus.closed = true
same_round_status RfqRoundStatus.failed RfqRoundStatus.failed = true
same_round_status _ _ = false

pub data DeliveryStatus : Type 0 where
  pending queued sent_to_gateway delivered failed : DeliveryStatus

unfoldable pub delivery_text : DeliveryStatus → String
delivery_text DeliveryStatus.pending = "PENDING"
delivery_text DeliveryStatus.queued = "QUEUED"
delivery_text DeliveryStatus.sent_to_gateway = "SENT_TO_GATEWAY"
delivery_text DeliveryStatus.delivered = "DELIVERED"
delivery_text DeliveryStatus.failed = "FAILED"

-- The states of a message at the gateway.
pub data DeliveryState : Type 0 where
  sent_to_gateway delivered failed : DeliveryState

-- `str(result.status)`
unfoldable pub status_of : DeliveryState → DeliveryStatus
status_of DeliveryState.sent_to_gateway = DeliveryStatus.sent_to_gateway
status_of DeliveryState.delivered = DeliveryStatus.delivered
status_of DeliveryState.failed = DeliveryStatus.failed

unfoldable pub is_delivered : DeliveryState → Bool
is_delivered DeliveryState.delivered = true
is_delivered _ = false

unfoldable pub was_delivered : DeliveryStatus → Bool
was_delivered DeliveryStatus.delivered = true
was_delivered _ = false

pub data DietaryStatus : Type 0 where
  confirmed partial unknown not_available : DietaryStatus

unfoldable pub dietary_text : DietaryStatus → String
dietary_text DietaryStatus.confirmed = "confirmed"
dietary_text DietaryStatus.partial = "partial"
dietary_text DietaryStatus.unknown = "unknown"
dietary_text DietaryStatus.not_available = "not_available"

pub data QuoteStatus : Type 0 where
  draft needs_clarification final invalid expired declined : QuoteStatus

unfoldable pub quote_text : QuoteStatus → String
quote_text QuoteStatus.draft = "DRAFT"
quote_text QuoteStatus.needs_clarification = "NEEDS_CLARIFICATION"
quote_text QuoteStatus.final = "FINAL"
quote_text QuoteStatus.invalid = "INVALID"
quote_text QuoteStatus.expired = "EXPIRED"
quote_text QuoteStatus.declined = "DECLINED"

unfoldable pub is_final : QuoteStatus → Bool
is_final QuoteStatus.final = true
is_final _ = false

unfoldable pub is_unclear : QuoteStatus → Bool
is_unclear QuoteStatus.needs_clarification = true
is_unclear _ = false

unfoldable pub is_declined : QuoteStatus → Bool
is_declined QuoteStatus.declined = true
is_declined _ = false

pub data ComparisonStatus : Type 0 where
  ready no_eligible_quotes needs_more_quotes : ComparisonStatus

unfoldable pub comparison_text : ComparisonStatus → String
comparison_text ComparisonStatus.ready = "READY"
comparison_text ComparisonStatus.no_eligible_quotes = "NO_ELIGIBLE_QUOTES"
comparison_text ComparisonStatus.needs_more_quotes = "NEEDS_MORE_QUOTES"

pub data ApprovalStatus : Type 0 where
  requested approved rejected changes_requested invalidated : ApprovalStatus

unfoldable pub approval_text : ApprovalStatus → String
approval_text ApprovalStatus.requested = "REQUESTED"
approval_text ApprovalStatus.approved = "APPROVED"
approval_text ApprovalStatus.rejected = "REJECTED"
approval_text ApprovalStatus.changes_requested = "CHANGES_REQUESTED"
approval_text ApprovalStatus.invalidated = "INVALIDATED"

unfoldable pub is_requested : ApprovalStatus → Bool
is_requested ApprovalStatus.requested = true
is_requested _ = false

unfoldable pub is_approved : ApprovalStatus → Bool
is_approved ApprovalStatus.approved = true
is_approved _ = false

pub data AwardStatus : Type 0 where
  queued sent_to_gateway delivered accepted declined failed : AwardStatus

unfoldable pub award_text : AwardStatus → String
award_text AwardStatus.queued = "QUEUED"
award_text AwardStatus.sent_to_gateway = "SENT_TO_GATEWAY"
award_text AwardStatus.delivered = "DELIVERED"
award_text AwardStatus.accepted = "ACCEPTED"
award_text AwardStatus.declined = "DECLINED"
award_text AwardStatus.failed = "FAILED"

unfoldable pub award_delivered : AwardStatus → Bool
award_delivered AwardStatus.delivered = true
award_delivered _ = false

unfoldable pub award_accepted : AwardStatus → Bool
award_accepted AwardStatus.accepted = true
award_accepted _ = false

pub data ReservationStatus : Type 0 where
  not_created pending confirmed failed : ReservationStatus

unfoldable pub reservation_text : ReservationStatus → String
reservation_text ReservationStatus.not_created = "NOT_CREATED"
reservation_text ReservationStatus.pending = "PENDING"
reservation_text ReservationStatus.confirmed = "CONFIRMED"
reservation_text ReservationStatus.failed = "FAILED"
