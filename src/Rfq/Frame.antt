-- ===== src/Rfq/Frame.antt =====
-- modules/rfq/service.py: the parts of a call that write no approval, award or reservation.
use hackathon_open_ai.Rfq.Trail.{add_event, now, audit, new_id, system_context, or_zero, Entry}
use hackathon_open_ai.Rfq.Keeps.{Keeps, keeps_rules, Keeps-bind, Keeps-writes}
use hackathon_open_ai.Rfq.Actions.{continue, ◌>>◌, ◌>>=◌, pure, writes, reads}
use hackathon_open_ai.Rfq.Lookups.{
  put_status, put_round, the_award, the_approval, the_recipient, put_recipient, put_quote,
  quotes_for_round, the_round, tenant_for_request, put_comparison, the_quote, put_quote_version,
  the_comparison,
}
use hackathon_open_ai.Prelude.{ℕ, suc, String, List, Dict, get, set, string_eq}
use hackathon_open_ai.Rfq.Contracts.{Quote, Comparison, AuditEvent, Context}
use hackathon_open_ai.Rfq.Store.{Store, RoundRecord, Recipient, QuoteRecord}
use hackathon_open_ai.Rfq.Environment.{Environment}

module _ {W : Type 0} {P : Store → Type 0} where
  pub Keeps-the_round : (id : String) → Keeps {W = W} P (the_round id)
  unfolding the_round
  Keeps-the_round id = search keeps_rules

  pub Keeps-the_recipient : (id : String) → Keeps {W = W} P (the_recipient id)
  unfolding the_recipient
  Keeps-the_recipient id = search keeps_rules

  pub Keeps-the_quote : (id : String) → Keeps {W = W} P (the_quote id)
  unfolding the_quote
  Keeps-the_quote id = search keeps_rules

  pub Keeps-the_comparison : (id : String) → Keeps {W = W} P (the_comparison id)
  unfolding the_comparison
  Keeps-the_comparison id = search keeps_rules

  pub Keeps-the_approval : (id : String) → Keeps {W = W} P (the_approval id)
  unfolding the_approval
  Keeps-the_approval id = search keeps_rules

  pub Keeps-the_award : (id : String) → Keeps {W = W} P (the_award id)
  unfolding the_award
  Keeps-the_award id = search keeps_rules

  pub Keeps-tenant_for_request : (id : String) → Keeps {W = W} P (tenant_for_request id)
  unfolding tenant_for_request
  Keeps-tenant_for_request id = search keeps_rules

  pub Keeps-quotes_for_round : (id : String) → Keeps {W = W} P (quotes_for_round id)
  unfolding quotes_for_round
  Keeps-quotes_for_round id = search keeps_rules

  pub Keeps-now : (env : Environment W) → Keeps P (now env)
  unfolding now
  Keeps-now env = search keeps_rules

  pub Keeps-system_context : (env : Environment W) (id : String) → Keeps P (system_context env id)
  unfolding system_context
  Keeps-system_context env id = search (keeps_rules, Keeps-tenant_for_request)

pub ruleset lookup_rules = (
  keeps_rules, Keeps-the_round, Keeps-the_recipient, Keeps-the_quote, Keeps-the_comparison,
  Keeps-the_approval, Keeps-the_award, Keeps-tenant_for_request, Keeps-quotes_for_round, Keeps-now,
  Keeps-system_context,
)

-- What does not matter to `P`: all but the approvals, the awards, the reservations and what is
-- remembered; a counter goes up.
pub record Ignores (P : Store → Type 0) : Type 0 where
  pub rounds : (s : Store) (d : Dict String RoundRecord) → P s → P (record s { rounds = d })
  pub recipients : (s : Store) (d : Dict String Recipient) → P s → P (record s { recipients = d })
  pub quotes : (s : Store) (d : Dict String QuoteRecord) → P s → P (record s { quotes = d })
  pub versions :
      (s : Store) (d : Dict (String × ℕ) Quote) → P s → P (record s { quote_versions = d })
  pub comparisons :
      (s : Store) (d : Dict String Comparison) → P s → P (record s { comparisons = d })
  pub statuses :
      (s : Store) (d : Dict String String) → P s → P (record s { procurement_status = d })
  pub events : (s : Store) (es : List AuditEvent) → P s → P (record s { audit_events = es })
  pub counters :
      (s : Store) (prefix : String)
      → P s
      → P (record s {
        id_counters = set s.id_counters prefix (suc (or_zero (get s.id_counters prefix)));
      })

module _ {W : Type 0} {P : Store → Type 0} (i : Ignores P) where
  pub Keeps-put_round : (id : String) (r : RoundRecord) → Keeps {W = W} P (put_round id r)
  unfolding put_round
  Keeps-put_round id r = Keeps-writes _ λ s. i.rounds s _

  pub Keeps-put_recipient : (id : String) (r : Recipient) → Keeps {W = W} P (put_recipient id r)
  unfolding put_recipient
  Keeps-put_recipient id r = Keeps-writes _ λ s. i.recipients s _

  pub Keeps-put_quote : (id : String) (q : QuoteRecord) → Keeps {W = W} P (put_quote id q)
  unfolding put_quote
  Keeps-put_quote id q = Keeps-writes _ λ s. i.quotes s _

  pub Keeps-put_quote_version :
      (id : String) (n : ℕ) (q : Quote) → Keeps {W = W} P (put_quote_version id n q)
  unfolding put_quote_version
  Keeps-put_quote_version id n q = Keeps-writes _ λ s. i.versions s _

  pub Keeps-put_comparison : (id : String) (c : Comparison) → Keeps {W = W} P (put_comparison id c)
  unfolding put_comparison
  Keeps-put_comparison id c = Keeps-writes _ λ s. i.comparisons s _

  pub Keeps-put_status : (request status : String) → Keeps {W = W} P (put_status request status)
  unfolding put_status
  Keeps-put_status request status = Keeps-writes _ λ s. i.statuses s _

  pub Keeps-new_id : (prefix : String) → Keeps {W = W} P (new_id prefix)
  unfolding new_id reads writes pure ◌>>=◌ ◌>>◌ continue
  Keeps-new_id prefix = record { at = λ s p. i.counters s.store prefix p }

  pub Keeps-add_event : (env : Environment W) (e : AuditEvent) → Keeps P (add_event env e)
  unfolding add_event
  Keeps-add_event env e = Keeps-writes _ λ s. i.events s _

  pub Keeps-audit : (env : Environment W) (e : Entry) (c : Context) → Keeps P (audit env e c)
  unfolding audit
  Keeps-audit env e c = search (lookup_rules, Keeps-new_id, Keeps-add_event)

pub ruleset frame_rules = (
  lookup_rules, Keeps-put_round, Keeps-put_recipient, Keeps-put_quote, Keeps-put_quote_version,
  Keeps-put_comparison, Keeps-put_status, Keeps-new_id, Keeps-audit,
)
