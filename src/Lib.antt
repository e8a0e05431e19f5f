-- ===== src/Lib.antt =====
-- The agents of the DACS reference roster: a model of the parts that hold money or decide about
-- it, and what holds of them.
--
-- Parts and files
--
-- Common: tests on numbers and texts, lists, integers and results that the parts share.
--
-- Treasury (roster/treasury-ops). The planner (planner.ts, Treasury/Planner) turns a policy and a
-- snapshot of balances into a plan; the gate (approval.ts, Treasury/Approval) checks the plan again
-- on its own and signs a token; the executor (executor.ts, Treasury/Executor) takes plan and token,
-- checks both, runs the transfers on the chains' ports and journals them; the mock chain
-- (mock-chain.ts, Treasury/MockChain) is a set of ports; the receipt of a run (proof.ts,
-- Treasury/Proof) is built from the executor's result and verified by a third party. types.ts is
-- Treasury/Types.
--   validatePolicy, plan: validate_policy, plan (the payroll loop is pay_all, the rebalance loop
--   rebalance_from); approve: approve (one intent is check_intent); execute, runIntent: execute,
--   run_intent; MockChain.transfer: transfer. An error that is thrown is a value of Result or of
--   Attempt. Amounts are integers. The clock's reading is an argument or left out.
--
-- Negotiation (roster/audit-negotiator). Terms, cost and guards (terms.ts, Negotiation/Terms) and the
-- harness that alternates two policies (negotiate.ts, Negotiation/Harness), with the deterministic
-- seller and buyer (policies.ts, Negotiation/Policies). A policy is any function
-- of the public state; `none` is an error that it throws. Prices count hundredths of a cent.
--   floorFor, askFor: floor_for, ask_for; sellerMaySettle, buyerMaySettle: seller_may_settle,
--   buyer_may_settle; runNegotiation: run_negotiation (one turn is take_turn); deterministicSeller,
--   deterministicBuyer: deterministic_seller, deterministic_buyer, with fractions in percent.
-- One side of the same negotiation over a channel (roster/negotiation-l2ps): its signed envelopes
-- (wire.ts, Negotiation/Wire) and its loop (session.ts, Negotiation/Session).
--   sealEnvelope, openEnvelope: seal_envelope, open_envelope; runSide: run_side (one round of its
--   loop is side_step). What the channel delivers is a list, with `none` for a timeout.
--
-- Gateway (roster/gateway/settlement.ts, Gateway/Settlement). PaymentGate: readPayment is read_payment;
-- verifyAndReserve is present up to its await and settle after it, and verify_and_reserve where
-- nothing comes between; release is release. Gateway/Settlement/Overlapping runs these in any order
-- (step), with the presentations that wait as a list. What the chain answers is an argument, with
-- `none` for a lookup that throws, and so is the JSON text of a proof.
--
-- Publisher (roster/publisher-agent/rfq.ts, Publisher/Rfq). buildPublisherQuote, the reservations in
-- memory, and negotiatePublisherRfq. DEM amounts are cents.
--
-- Sponsored (roster/sponsored-post/idempotency.ts, Sponsored/Idempotency). The store in memory.
--
-- EvalBot (roster/evalbot). verdict.ts and ruling.ts are EvalBot/Ruling, ledger.ts is EvalBot/Ledger.
-- Scores, weights and aggregates count hundredths.
--
-- Subcontract (roster/subcontract/gc.ts). gcBundleSeller is gc_bundle_seller of Subcontract/Bundle, and
-- runSubcontract is run_subcontract of Subcontract/Sourcing, with every negotiation on the harness of
-- Negotiation. Fractions are in percent, with the defaults of the source written out.
--
-- DepUpgrade (roster/dep-upgrade). Versions and ranges (semver.ts, DepUpgrade/Semver) over character
-- codes, and the planner of upgrades (planner.ts, DepUpgrade/Planner).
--   parseSemver, compareSemver, satisfies, minSatisfying, maxSatisfying: parse_semver,
--   compare_semver, satisfies, min_satisfying, max_satisfying; buildPlan: build_plan (one round of
--   its loop is plan_dep). An error that is thrown is a value of Result.
--
-- Butler (roster/procurement-butler). The money (Butler/Money), the types and ports (types.ts,
-- Butler/Types), and of butler.ts the scalar negotiation (Butler/Haggling), the choice of a
-- provider (Butler/Procurement) and the acceptance of a deliverable (Butler/Acceptance).
--   negotiate: negotiate (its loop is play); procure: procure (its loops are screen and
--   attempt_all); acceptDeliverable: accept_deliverable. Sums are cents, and rates exact shares.
--
-- Watcher (roster/dacs/watcher.ts, with jobIdFromMemo and didFromDemosAddr of rails.ts). onTransfer
-- is on_transfer, made of the parts arrive, look and settle, which its waits separate.
--
-- Bounds and fuel. The rebalance loop runs at most 100 rounds, as in the source. A negotiation runs
-- on the number of turns that are left, which starts at `max 2 maxTurns`, as the source's loop
-- does, and so does one side of a session; the butler's on the rounds that are left of maxRounds. A decimal numeral is made on a
-- measure above the number. All else is recursion on lists. Numbers do not overflow: the source's are doubles, which
-- are exact on integers below 2^53, and `bigint`.
--
-- Parameters. Hashes, signatures, the text of a number, string clean-up and regular expressions,
-- ports and lookups come from outside and are arguments; so is JSON text, with the canonical JSON
-- that roster/treasury-ops/proof.ts and roster/evalbot/ruling.ts build on it. That a hash meets no
-- collision is a hypothesis where it is needed.
--
-- Not modelled: file and network access, HTTP, LLM calls, texts meant for people, the LLM
-- policies of the negotiator, what applies, verifies and delivers an upgrade (roster/dep-upgrade), the
-- parser of publisher requests, the file store of sponsored posts, the rubric engine, and the
-- other agents of roster/, the DACS wire formats and src/, which this library does not cover.
pub mod Common
pub mod Treasury
pub mod Negotiation
pub mod Gateway
pub mod Publisher
pub mod Sponsored
pub mod EvalBot
pub mod Subcontract
pub mod DepUpgrade
pub mod Butler
pub mod Watcher
