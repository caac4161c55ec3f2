-- ===== src/Domain/Approvals/Calls.antt =====
-- The calls that a client can make on an approval: one for each public method that changes it.
use hackathon_open_ai.Value.{Value}
use hackathon_open_ai.Domain.Approvals.Methods
use hackathon_open_ai.Domain.Approvals.Methods.{ApprovalMethod}
use hackathon_open_ai.Contracts.{ActorType}

pub data Call : Type 0 where
  approve : (kind : ActorType) (actor at : Value) → Call
  reject : (kind : ActorType) (actor at why : Value) → Call
  request_changes : (kind : ActorType) (actor at why : Value) → Call

unfoldable pub run : Call → ApprovalMethod
run (Call.approve kind actor at) = Methods.approve kind actor at
run (Call.reject kind actor at why) = Methods.reject kind actor at why
run (Call.request_changes kind actor at why) = Methods.request_changes kind actor at why
