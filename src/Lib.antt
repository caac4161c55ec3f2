-- ===== src/Lib.antt =====
-- A verification library for the backend of the procurement service (backend/app).
--
-- The program. A buyer's procurement request is sourced, quoted, approved by a human and awarded to
-- a supplier. The aggregates of backend/app/domain keep the state of one request, approval, award,
-- supplier or quote, and stage an event for each change: `domain/common/aggregate.py` is the state
-- machine that all five extend. An award reads the approval that it rests on; the request is told of
-- the approval, of the delivery of the award and of the supplier's answer. `modules/quotes/rules.py`
-- validates what a supplier submits and derives totals, prices and eligibility from it, and
-- `modules/comparison/scoring.py` scores and ranks the quotes with the weights of a policy.
-- The outbox of infrastructure/outbox keeps the messages of a tenant until a worker that leased one
-- reports its delivery, and the registry of platform/idempotency.py runs a command once for its key.
-- `modules/rfq/service.py` runs the whole of it for the planner: it sends a round to the suppliers,
-- takes their quotes by rules.py, compares them by scoring.py, has a human approve one, sends the
-- award and takes the answer and the reservation, over one store with its trail of audit events.
--
-- The files.
--   Prelude     the library's names, Boolean tests, Python's int, texts, sets and dicts (Dicts)
--   Value       the Python values that dynamically checked parameters take
--   Contracts   the enumerations of contracts/common.py
--   Domain      Domain/Common: domain/common (values, errors, events, AggregateRoot), and what holds
--               of every aggregate: Outcomes (how a call can end), Audit (the trail of events),
--               Lifecycle (the theorems for any state machine built on them). Domain/Procurement,
--               Approvals, Awards, Suppliers, Quotes: the aggregate.py of each. In each of these,
--               Facts holds the fields and the checks, Methods (for a request: Sourcing and
--               Commitment) the methods under their own names, Route the states that may follow and
--               what the fields hold in each, Calls the methods as data, Histories and Bindings (for
--               a request also Grants and Sent) the theorems, Tests runs and instances
--   Shared      shared/errors.py, and the lookups, integer checks and the rounding that rules.py and
--               scoring.py share
--   QuoteRules  modules/quotes/rules.py: Amounts, Presence, Requirements, Submission; Eligible, Risks,
--               Diets, Decision and Accepted: what makes a quote eligible and what its risks tell
--   Scoring     modules/comparison/scoring.py: Weights, Criteria, Score, Keys, Ranking; Points and
--               Results: scores; Sorting, Lexical, Lowest, Order and Eligibility: the ranking
--   Outbox      infrastructure/outbox/repository.py: the table as a list of rows (Rows), Enqueue, Leases
--               (claim_due, mark_failed, mark_delivered), and their calls in any order (Operations); Held,
--               Settled, Settling and Fencing: the lease and what its holder may write
--   Platform    platform/idempotency.py: the registry that runs a handler once for each key
--   Rfq         modules/rfq. Contracts: the DTOs of contracts.py. Store: store.py. Environment: what
--               the service is given, with the messages of modules/messaging/gateway.py. Actions: a
--               call as a function of the store and the outer world, which returns, is refused with
--               a code, or breaks off with any other exception. Attributes: the attributes that
--               rules.py and scoring.py read of a DTO. Lookups, Trail, Replay: the helpers for
--               reading the store, for the audit trail and for idempotency keys. Rounds, Deliveries
--               and Sending: create_round, send_round, get_delivery_status. Expiry, Submissions and
--               Submitting: submit_quote, get_quote_status. Comparisons: compare. Approvals:
--               request_approval, decide_approval. Awards and Awarding: send_award,
--               get_award_status. Answers: accept_award, decline_award. Reservations:
--               confirm_reservation. Calls: any sequence of these. Keeps, Leaves and Returns: what a
--               call keeps, leaves and returns; Frame, Frames and Ledger: of which parts of the
--               store each step is independent. Memory, Remembers and Replays, Bound and OneAward, Decided,
--               Grounds, Sound and Ready, Agreed, Recommends: the theorems. Digits: the fuel of the
--               digits of a number. Runs and Tests: a whole run, and the theorems at its steps
--
-- The model. A method is a function from the aggregate to a result and the aggregate after it; an
-- exception keeps the assignments made before it. A parameter whose type the code checks at run time
-- is a `Value`; one that is only ever a text, or an enumeration, is that. Numbers are exact, as in
-- Python. An error is its code with its message, in Shared its code alone; further details are left
-- out. A datetime is an instant in UTC or a naive wall time (one whose tzinfo gives no offset counts
-- as naive), and `isoformat` of it is kept as it is. A set of texts is its sorted list. A source that
-- rules.py and scoring.py read is a mapping; an object is read in the same way by its attributes.
-- `str.lower` is modelled as far as it leads to a letter that the compared names contain. All loops
-- run over lists, by structural recursion; only the digits of a number are taken on fuel, which is
-- the number itself, and it has no more digits than that.
--
-- Parameters. The JSON text of an award's terms with its SHA-256 digest is the parameter `Canonical`.
-- Python's `str` of a value that is not a text is the parameter `str` of Scoring. The normal form of
-- a JSON object and its fingerprint are the parameter `Json` of Outbox; the rows that other
-- transactions lock and the order that the database has for ids are its parameters `held` and
-- `collate`. The canonical hash of a payload is the parameter `hash` of Platform. What Rfq
-- is given is the record `Environment`: the clock, the gateway, the service of response tokens,
-- `payload_hash`, `date.fromisoformat`, and `str` of a value. They may answer anything, and the world
-- that they read and change is any type.
--
-- Not modelled. The reasons in a score component, which are constant texts. The DTOs of contracts/
-- and the pydantic base class; of the DTOs of modules/rfq, the limits of single fields, and fields
-- that are constants or repeat others (the version of the contract, the currency, the evidence of a
-- candidate). The policy engine of platform/, the signing of response tokens, the adapter for the planner in modules/rfq, and the workflows of
-- modules/sourcing, procurement_requests and suppliers. The live service, the API, the SQL storage,
-- the language model agent and the start-up code, which are input, output and wiring.
pub mod Prelude
pub mod Value
pub mod Contracts
pub mod Domain
pub mod Shared
pub mod QuoteRules
pub mod Scoring
pub mod Outbox
pub mod Platform
pub mod Rfq
