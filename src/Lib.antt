-- ===== src/Lib.antt =====
-- The procurement swarm: a model of the parts that decide, gate and record.
--
-- The program runs procurement requests through agents that share state. Seven groups of modules
-- are modelled, each from the files named here.
--
-- * Mesh (mesh/channels.py, mesh/blackboard.py). Archetypes exchange traces on typed channels of a
--   blackboard. Mesh/Channels is the ACL table with its checks, Mesh/Blackboard the board:
--   `Blackboard` is its state, and `write`, `read`, `read_multi`, `read_all`, `snapshot`,
--   `get_channel_traces`, `clear_channel` and `clear_all` are the methods.
-- * Auction (core/protocol, core/evaluator, core/agents, core/ledger). Auction/Fsm is
--   GlobalAuctionFSM, Auction/Bilateral is BilateralFSM with its history, Auction/Bids the payloads
--   of schema.py, Auction/Policy the rules for bids, Auction/Evaluator the scores and the ranking,
--   Auction/Ledger the table of hash-chained events with `append_event` and `verify_chain`; its two
--   transactions are `get_last_hash` and `insert_event`, which may be interleaved. Auction/Supplier
--   is the supplier's agent with `respond_to_rfq` and `respond_to_offer`, Auction/Barter the buyer's
--   `barter_with_supplier`. Auction/Orchestrator is `run_sealed_bid_auction` and Auction/Bartering
--   `run_bilateral_bartering` of core/protocol/auction_orchestrator.py, which put these together.
-- * Swarm (swarm/core). Swarm/Artifact, Swarm/Event and Swarm/State are the shared state,
--   Swarm/Completion the tracker that closes a group of artifacts, Swarm/Registry the agents by name
--   and by capability, Swarm/Bus the event bus with the cycle of an agent (swarm/core/agent.py) and
--   the coordinator (swarm/orchestration/coordinator.py), Swarm/Masking and Swarm/Timeline the
--   timeline of a run with its secrets masked.
-- * Learning (swarm/learning/routing.py). Learning/Routing chooses the strategy of a run by the rules
--   of a policy.
-- * Execution (swarm/domain/agents/approval_agent.py, swarm/domain/agents/purchase_order_agent.py,
--   swarm/domain/order.py, swarm/utils/idempotency.py, swarm/integrations/base.py).
--   Execution/Approval turns a governance decision into an authorization, Execution/Purchase an
--   authorization into a purchase order (`create_order`, and `submit_order` for `_submit_order`)
--   with the guard of Execution/Guard and the orders of Execution/Order, and Execution/Flow runs
--   both agents on one shared state, one action after another.
-- * Store (swarm/storage/event_store.py). Store/Tables is the schema, Store/Traces the rows of a
--   trace, Store/Policies the stored policies and the active one.
-- * Domain (swarm/domain/risk.py, swarm/domain/governance.py, swarm/domain/supplier.py,
--   swarm/domain/contracts.py). Domain/Risk scores a decision, Domain/Governance approves, holds or
--   rejects it, and Domain/Contracts validates an order line against a supplier's contract.
--
-- The parts meet as in the program: an auction drives the state machine, writes to the ledger,
-- asks the policy engine and ranks by the evaluator; the tracker reads and closes groups through
-- the operations of Swarm/State; the governance rules take the assessment that Domain/Risk
-- computes; and the agents of Execution read and write the artifacts of Swarm/State.
--
-- A method that changes its object and may raise is a function from the state to its result and
-- the new state (Prelude/Exec): what was written before a raise stays written. Dicts are
-- association lists in insertion order (Prelude/Dict), Python integers are signed (Prelude/Int),
-- and every loop is structural recursion, so no fuel is needed. Generated ids and times are
-- arguments.
--
-- Parameters stand for what is not code of the repository: the hash function, json, the clock and
-- the formatting of the ledger, the answers that `gather` collects, random numbers, `publish` of
-- the event bus seen from the tracker, json and the clock of the store, the float arithmetic of the
-- scores and bids, the dates of the contracts, the lower case and the order of texts in the
-- timeline, the text functions and `int` of the routing rules, and what an agent on the bus
-- perceives, reasons and does; its `perceive` is taken to write the agent only, as it does in the
-- repository. A theorem names what it needs of them.
--
-- Not modelled: the memory of past auctions and its vector store, logging, HTTP routes,
-- language-model calls, Ray actors and the other agents; that a published event is delivered while
-- the action that publishes it still runs, and that handlers of one event interleave; a connector
-- that raises and the errors of the database other than a broken constraint; routed agents, the
-- completion tracker as a handler of the bus, the start and the shutdown of a coordinator, and the
-- replay that delivers the originals; the texts of reasons and refusals; statistics of the
-- blackboard; the report and the serialization of the shared state; the status and the counts of a
-- timeline; and load_policy_version_ids, whose order among equal times the database leaves open.
pub mod Prelude
pub mod Mesh
pub mod Auction
pub mod Swarm
pub mod Store
pub mod Domain
pub mod Execution
pub mod Learning
