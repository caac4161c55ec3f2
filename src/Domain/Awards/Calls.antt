-- ===== src/Domain/Awards/Calls.antt =====
-- The calls that a client can make on an award: one for each public method that changes it.
use hackathon_open_ai.Value.{Value}
use hackathon_open_ai.Domain.Awards.Methods
use hackathon_open_ai.Domain.Awards.Methods.{AwardMethod}

pub data Call : Type 0 where
  confirm_delivery : (ack at : Value) → Call
  accept : (submission respondent at displayed confirmation : Value) → Call
  decline : (submission respondent at : Value) → Call

unfoldable pub run : Call → AwardMethod
run (Call.confirm_delivery ack at) = Methods.confirm_delivery ack at
run (Call.accept submission respondent at displayed confirmation) =
    Methods.accept submission respondent at displayed confirmation
run (Call.decline submission respondent at) = Methods.decline submission respondent at
