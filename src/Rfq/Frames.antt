-- ===== src/Rfq/Frames.antt =====
-- modules/rfq/service.py: the operations that write no approval, award or reservation.
use hackathon_open_ai.Rfq.Sending.{
  refresh_recipient, sent_result, confirm, get_delivery_status, context_or, refresh_delivery_batch,
  dispatch_round, note_status, token_for, move_round, send_to, refresh_one, note_sent, send,
}
use hackathon_open_ai.Rfq.Rounds.{
  add_recipient, validated, start_round, get_response_context, validate_token,
}
use hackathon_open_ai.Rfq.Keeps.{Keeps}
use hackathon_open_ai.Rfq.Comparisons.{compare_collected}
use hackathon_open_ai.Rfq.Expiry.{
  expire_if, replace_quote, expire_open, get_quote_status, expire, count_up, expire_quotes,
}
use hackathon_open_ai.Rfq.Store.{Store, RoundRecord, Recipient}
use hackathon_open_ai.Prelude.{ℕ, zero, suc, String, Bool, true, false, Option, none, some}
use hackathon_open_ai.Rfq.Frame.{Ignores, frame_rules}
use hackathon_open_ai.Rfq.Contracts.{
  CreateRound, SendRound, CompareQuotes, Quote, DeliveryStatus, Context, RfqRoundStatus,
}
use hackathon_open_ai.Rfq.Environment.{
  Environment, Validation, OutboundMessage, SendResult, GatewayStatus, Sending,
}

module _ {W : Type 0} {P : Store → Type 0} (i : Ignores P) (env : Environment W) where
  Keeps-add_recipient : (round s : String) → Keeps {W = W} P (add_recipient round s)
  unfolding add_recipient
  Keeps-add_recipient round s = search frame_rules depth 60 fits 4000

  pub Keeps-start_round : (c : CreateRound) → Keeps P (start_round env c)
  unfolding start_round
  Keeps-start_round c = search (frame_rules, Keeps-add_recipient) depth 60 fits 4000

  Keeps-validated : (v : Validation) → Keeps P (validated env v)
  unfolding validated
  Keeps-validated (Validation.valid c) = search frame_rules depth 60 fits 4000
  Keeps-validated Validation.invalid = search frame_rules depth 60 fits 4000
  Keeps-validated Validation.error = search frame_rules depth 60 fits 4000

  pub Keeps-validate_token : (token purpose : String) → Keeps P (validate_token env token purpose)
  unfolding validate_token
  Keeps-validate_token token purpose = search (frame_rules, Keeps-validated) depth 60 fits 4000

  pub Keeps-get_response_context : (token : String) → Keeps P (get_response_context env token)
  unfolding get_response_context
  Keeps-get_response_context token = search (frame_rules, Keeps-validate_token) depth 60 fits 4000

  Keeps-token_for :
      (round : RoundRecord) (id : String) (r : Recipient) (token : Option String)
      → Keeps P (token_for env round id r token)
  unfolding token_for
  Keeps-token_for round id r none = search frame_rules depth 60 fits 4000
  Keeps-token_for round id r (some token) = search frame_rules depth 60 fits 4000

  Keeps-sent_result : (s : Sending) → Keeps P (sent_result env s)
  unfolding sent_result
  Keeps-sent_result (Sending.sent r) = search frame_rules depth 60 fits 4000
  Keeps-sent_result Sending.conflict = search frame_rules depth 60 fits 4000
  Keeps-sent_result Sending.error = search frame_rules depth 60 fits 4000

  pub Keeps-send : (m : OutboundMessage) → Keeps P (send env m)
  unfolding send
  Keeps-send m = search (frame_rules, Keeps-sent_result) depth 60 fits 4000

  Keeps-confirm :
      (id : String) (r : Recipient) (external_id : String) (d : DeliveryStatus) (c : Context)
      → Keeps P (confirm env id r external_id d c)
  unfolding confirm
  Keeps-confirm id r external_id d c = search frame_rules depth 60 fits 4000

  Keeps-note_sent :
      (id : String) (r : Recipient) (result : SendResult) (c : SendRound)
      → Keeps P (note_sent env id r result c)
  unfolding note_sent
  Keeps-note_sent id r result c = search (frame_rules, Keeps-confirm) depth 60 fits 4000

  Keeps-send_to :
      (round : RoundRecord) (c : SendRound) (id : String) → Keeps P (send_to env round c id)
  unfolding send_to
  Keeps-send_to round c id =
      search (frame_rules, Keeps-token_for, Keeps-send, Keeps-note_sent) depth 60 fits 4000

  Keeps-context_or : (c : Option Context) (request : String) → Keeps P (context_or env c request)
  unfolding context_or
  Keeps-context_or none request = search frame_rules depth 60 fits 4000
  Keeps-context_or (some c) request = search frame_rules depth 60 fits 4000

  Keeps-note_status :
      (round : RoundRecord) (c : Option Context) (id : String) (r : Recipient) (e : String)
      (g : GatewayStatus)
      → Keeps P (note_status env round c id r e g)
  unfolding note_status
  Keeps-note_status round c id r e g =
      search (frame_rules, Keeps-confirm, Keeps-context_or) depth 60 fits 4000

  Keeps-refresh_one :
      (round : RoundRecord) (c : Option Context) (id : String) (r : Recipient) (e : Option String)
      → Keeps P (refresh_one env round c id r e)
  unfolding refresh_one
  Keeps-refresh_one round c id r none = search frame_rules depth 60 fits 4000
  Keeps-refresh_one round c id r (some e) =
      search (frame_rules, Keeps-note_status) depth 60 fits 4000

  Keeps-refresh_recipient :
      (round : RoundRecord) (round_id : String) (c : Option Context) (id : String)
      → Keeps P (refresh_recipient env round round_id c id)
  unfolding refresh_recipient
  Keeps-refresh_recipient round round_id c id =
      search (frame_rules, Keeps-refresh_one) depth 60 fits 4000

  Keeps-move_round :
      (id : String) (round : RoundRecord) (c : Option Context) (s : RfqRoundStatus) (same : Bool)
      → Keeps P (move_round env id round c s same)
  unfolding move_round
  Keeps-move_round id round c s true = search frame_rules depth 60 fits 4000
  Keeps-move_round id round c s false = search (frame_rules, Keeps-context_or) depth 60 fits 4000

  pub Keeps-refresh_delivery_batch :
      (id : String) (c : Option Context) → Keeps P (refresh_delivery_batch env id c)
  unfolding refresh_delivery_batch
  Keeps-refresh_delivery_batch id c =
      search (frame_rules, Keeps-refresh_recipient, Keeps-move_round) depth 60 fits 4000

  pub Keeps-get_delivery_status : (id : String) → Keeps P (get_delivery_status env id)
  unfolding get_delivery_status
  Keeps-get_delivery_status id = Keeps-refresh_delivery_batch id none

  pub Keeps-dispatch_round : (c : SendRound) → Keeps P (dispatch_round env c)
  unfolding dispatch_round
  Keeps-dispatch_round c =
      search (frame_rules, Keeps-send_to, Keeps-refresh_delivery_batch) depth 60 fits 4000

  Keeps-replace_quote : (q : Quote) → Keeps P (replace_quote env q)
  unfolding replace_quote
  Keeps-replace_quote q = search frame_rules depth 60 fits 4000

  Keeps-expire : (request : String) (q : Quote) → Keeps P (expire env request q)
  unfolding expire
  Keeps-expire request q = search (frame_rules, Keeps-replace_quote) depth 60 fits 4000

  Keeps-expire_if : (request : String) (q : Quote) (b : Bool) → Keeps P (expire_if env request q b)
  unfolding expire_if
  Keeps-expire_if request q true = search (frame_rules, Keeps-expire) depth 60 fits 4000
  Keeps-expire_if request q false = search frame_rules depth 60 fits 4000

  Keeps-expire_open :
      (request : String) (q : Quote) (b : Bool) → Keeps P (expire_open env request q b)
  unfolding expire_open
  Keeps-expire_open request q true = search (frame_rules, Keeps-expire_if) depth 60 fits 4000
  Keeps-expire_open request q false = search frame_rules depth 60 fits 4000

  Keeps-count_up : (id : String) (r : RoundRecord) (n : ℕ) → Keeps P (count_up env id r n)
  unfolding count_up
  Keeps-count_up id r zero = search frame_rules depth 60 fits 4000
  Keeps-count_up id r (suc n) = search frame_rules depth 60 fits 4000

  Keeps-expire_quotes : (id : String) (r : RoundRecord) → Keeps P (expire_quotes env id r)
  unfolding expire_quotes
  Keeps-expire_quotes id r =
      search (frame_rules, Keeps-expire_open, Keeps-count_up) depth 60 fits 4000

  pub Keeps-get_quote_status : (id : String) → Keeps P (get_quote_status env id)
  unfolding get_quote_status
  Keeps-get_quote_status id = search (frame_rules, Keeps-expire_quotes) depth 60 fits 4000

  pub Keeps-compare_collected : (c : CompareQuotes) → Keeps P (compare_collected env c)
  unfolding compare_collected
  Keeps-compare_collected c = search (frame_rules, Keeps-expire_quotes) depth 60 fits 4000
