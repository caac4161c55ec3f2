-- ===== src/Rfq/Lookups.antt =====
-- modules/rfq/service.py: the lookups, which refuse what is not there, and the writes to the store.
use hackathon_open_ai.Prelude.{
  nat_eq, pair_eq, string_eq, ℕ, String, Option, none, some, List, [], ◌∷◌, if◌then◌else◌, str_eq,
  get, set, values,
}
use hackathon_open_ai.Shared.{ExecutionCode}
use hackathon_open_ai.Rfq.Contracts.{Quote, Comparison, Approval, Reservation}
use hackathon_open_ai.Rfq.Store.{RoundRecord, Recipient, QuoteRecord, AwardRecord}
use hackathon_open_ai.Rfq.Actions.{Action, reads, or_refuse, writes, ◌>>=◌}

module _ {W : Type 0} where
  unfoldable pub the_round : String → Action W RoundRecord
  unfolding ◌>>=◌ reads or_refuse get
  the_round id = reads (λ s. get s.rounds id) >>= or_refuse ExecutionCode.not_found

  unfoldable pub the_recipient : String → Action W Recipient
  unfolding ◌>>=◌ reads or_refuse get
  the_recipient id = reads (λ s. get s.recipients id) >>= or_refuse ExecutionCode.not_found

  unfoldable pub the_quote : String → Action W QuoteRecord
  unfolding ◌>>=◌ reads or_refuse get
  the_quote id = reads (λ s. get s.quotes id) >>= or_refuse ExecutionCode.not_found

  unfoldable pub the_comparison : String → Action W Comparison
  unfolding ◌>>=◌ reads or_refuse get
  the_comparison id = reads (λ s. get s.comparisons id) >>= or_refuse ExecutionCode.not_found

  unfoldable pub the_approval : String → Action W Approval
  unfolding ◌>>=◌ reads or_refuse get
  the_approval id = reads (λ s. get s.approvals id) >>= or_refuse ExecutionCode.not_found

  unfoldable pub the_award : String → Action W AwardRecord
  unfolding ◌>>=◌ reads or_refuse get
  the_award id = reads (λ s. get s.awards id) >>= or_refuse ExecutionCode.not_found

  unfoldable pub put_round : String → RoundRecord → Action W (Unit {0})
  unfolding writes set
  put_round id r = writes λ s. record s { rounds = set s.rounds id r }

  unfoldable pub put_recipient : String → Recipient → Action W (Unit {0})
  unfolding writes set
  put_recipient id r = writes λ s. record s { recipients = set s.recipients id r }

  unfoldable pub put_quote : String → QuoteRecord → Action W (Unit {0})
  unfolding writes set
  put_quote id q = writes λ s. record s { quotes = set s.quotes id q }

  unfoldable pub put_quote_version : String → ℕ → Quote → Action W (Unit {0})
  unfolding writes set
  put_quote_version id n q =
      writes λ s. record s { quote_versions = set s.quote_versions (id, n) q }

  unfoldable pub put_comparison : String → Comparison → Action W (Unit {0})
  unfolding writes set
  put_comparison id c = writes λ s. record s { comparisons = set s.comparisons id c }

  unfoldable pub put_approval : String → Approval → Action W (Unit {0})
  unfolding writes set
  put_approval id a = writes λ s. record s { approvals = set s.approvals id a }

  unfoldable pub put_award : String → AwardRecord → Action W (Unit {0})
  unfolding writes set
  put_award id a = writes λ s. record s { awards = set s.awards id a }

  unfoldable pub bind_award : String → String → Action W (Unit {0})
  unfolding writes set
  bind_award approval award =
      writes λ s. record s { award_by_approval_id = set s.award_by_approval_id approval award }

  unfoldable pub put_reservation : String → Reservation → Action W (Unit {0})
  unfolding writes set
  put_reservation id r = writes λ s. record s { reservations = set s.reservations id r }

  unfoldable pub bind_reservation : String → String → Action W (Unit {0})
  unfolding writes set
  bind_reservation award reservation =
      writes
        λ s. record s { reservation_by_award_id = set s.reservation_by_award_id award reservation }

  unfoldable pub put_status : String → String → Action W (Unit {0})
  unfolding writes set
  put_status request status =
      writes λ s. record s { procurement_status = set s.procurement_status request status }

-- The tenant of the first round of the request.
unfoldable pub tenant_in : List RoundRecord → String → Option String
tenant_in [] request = none
tenant_in (r ∷ rs) request =
    let rest = tenant_in rs request in
    if str_eq r.dto.procurement_request_id request then some r.tenant_id else rest

-- `_quotes_for_round`
unfoldable pub quotes_in : List QuoteRecord → String → List Quote
quotes_in [] round = []
quotes_in (q ∷ qs) round =
    let rest = quotes_in qs round in if str_eq q.dto.rfq_round_id round then q.dto ∷ rest else rest

module _ {W : Type 0} where
  unfoldable pub tenant_for_request : String → Action W String
  unfolding ◌>>=◌ reads or_refuse tenant_in values
  tenant_for_request request =
      reads (λ s. tenant_in (values s.rounds) request) >>= or_refuse ExecutionCode.not_found

  unfoldable pub quotes_for_round : String → Action W (List Quote)
  unfolding reads quotes_in values
  quotes_for_round round = reads λ s. quotes_in (values s.quotes) round

  unfoldable pub get_approval_status : String → Action W Approval
  unfolding the_approval
  get_approval_status = the_approval

  unfoldable pub get_procurement_status : String → Action W String
  unfolding ◌>>=◌ reads or_refuse get
  get_procurement_status request =
      reads (λ s. get s.procurement_status request) >>= or_refuse ExecutionCode.not_found
