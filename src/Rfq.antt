-- ===== src/Rfq.antt =====
-- modules/rfq: the workflow from the round of requests for quotes to the reservation.
pub mod Contracts
pub mod Numerals
mod Attributes
mod Store
mod Environment
mod Actions
mod Keeps
mod Returns
mod Frame
mod Frames
mod Lookups
mod Trail
mod Replay
mod Rounds
mod Deliveries
mod Sending
mod Expiry
mod Submissions
mod Submitting
mod Comparisons
mod Approvals
mod Awards
mod Awarding
mod Answers
mod Reservations
mod Ledger
mod Calls
mod Memory
mod Remembers
mod Replays
mod Leaves
mod Bound
mod OneAward
mod Decided
mod Grounds
mod Sound
mod Ready
mod Digits
mod Agreed
mod Recommends
mod Runs
mod Tests
