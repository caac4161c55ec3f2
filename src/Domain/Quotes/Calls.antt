-- ===== src/Domain/Quotes/Calls.antt =====
-- The calls that a client can make on a quote: one for each public method that changes it.
use hackathon_open_ai.Value.{Value}
use hackathon_open_ai.Domain.Quotes.Methods
use hackathon_open_ai.Domain.Quotes.Methods.{QuoteMethod}
use hackathon_open_ai.Domain.Quotes.Facts.{ValidationInput}

pub data Call : Type 0 where
  record_opened : (event : Value) → Call
  save_draft : Call
  submit : (submission respondent : Value) → Call
  start_validation : Call
  request_clarification : (why : Value) → Call
  record_clarification : (submission : Value) → Call
  mark_valid : (input : ValidationInput) → Call
  start_negotiation : Call
  finalize : Call
  select : Call
  reject : Call
  expire : (at : Value) → Call

unfoldable pub run : Call → QuoteMethod
run (Call.record_opened event) = Methods.record_opened event
run Call.save_draft = Methods.save_draft
run (Call.submit submission respondent) = Methods.submit submission respondent
run Call.start_validation = Methods.start_validation
run (Call.request_clarification why) = Methods.request_clarification why
run (Call.record_clarification submission) = Methods.record_clarification submission
run (Call.mark_valid input) = Methods.mark_valid input
run Call.start_negotiation = Methods.start_negotiation
run Call.finalize = Methods.finalize
run Call.select = Methods.select
run Call.reject = Methods.reject
run (Call.expire at) = Methods.expire at
