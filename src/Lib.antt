-- ===== src/Lib.antt =====
-- Verification of jindiao, a service that runs agents over a frozen snapshot of an enterprise and
-- collects their due-diligence conclusions. Paths are from the root of the repository.
--
-- The program and its model:
--   * Contracts.Check, Contracts.Catalog and Contracts.Snapshot follow src/jindiao/contracts:
--     investigation.py (check results, risk items, the check catalog), acquisition.py (the snapshot)
--     and evidence.py. The validators of the pydantic models are functions that may raise.
--   * Validation follows src/jindiao/investigation/validation.py: the scope validator, the evidence
--     gate, and the downgrade of a conclusion that the Evidence does not support. The loop over the
--     required submodules is `scan`, whose state is the record `Progress`.
--   * Blackboard follows src/jindiao/investigation/blackboard.py. `Board` is the state that
--     SubmissionBlackboard guards with its lock, and every operation is a function from a board to a
--     result and the next board; under the lock no operation interleaves with another, so a Run is a
--     sequence of these functions (`Reach` of Blackboard/Runs).
--   * Budget follows BudgetLedger of src/jindiao/orchestration/base.py and ExecutionCost of
--     src/jindiao/contracts/execution.py. Its operations return the ledger also when they raise,
--     since an exhausted budget is recorded first. `Reach` of Budget/Steps interleaves them freely.
--   * Acceptance follows validate_accepted_investigation_results of the same validation.py: the gate
--     over the results of all agents. The batch of an agent, the inner function of
--     build_submit_bound_check_results_tool, is Blackboard/Batch.
--   * Review follows the reviews of the same SubmissionBlackboard; `ReviewBoard` adds to a board its
--     reviews and its ledger. Check submissions and reviews write different parts of the state.
--   * Events follows the event stores of src/jindiao/observability/run_store.py and EventSequencer of
--     src/jindiao/contracts/events.py, each dictionary under one run id. In Events/Delivery a
--     subscription is given the events that its queue yields, each with the store at that moment;
--     Events/Lines and Events/Durable are the store on disk.
--   * Runs follows InMemoryRunRepository of the same src/jindiao/observability/run_store.py.
--   * Assignments follows src/jindiao/investigation/assignments.py: the plan by which the Leader hands
--     the checks of the catalog to the agents, and the two tools that submit it. `AssignmentTools` is
--     the board together with the ledger that the tools charge.
--   * Projection follows RunProjection and RunEventPublisher of src/jindiao/observability/run_store.py
--     and the views of src/jindiao/contracts/runs.py. The branches of RunProjection.apply are the
--     constructors of `EventKind`. The publisher joins the entries of its Run in the event store
--     (Events/Log), its projection and its sequencer; Publish and Complete are its two operations.
--   * Reporting follows the loop of src/jindiao/reporting/product_assembler.py that adds to the
--     references of a report the Evidence that they are derived from, and Redaction follows
--     src/jindiao/security/redaction.py. Both work on the JSON values of Contracts/Json.
--   * Errors holds the exceptions as values, Prelude the texts, lists and dictionaries of Python that
--     the components share, and Examples runs the components at concrete inputs.
--
-- Conventions: a Python dict is an association list in insertion order; a set that is only asked for
-- members is a list; a model's equality is the decidable equality of its record. Confidences are
-- natural numbers of millionths, times are natural numbers of milliseconds and arguments of the
-- operations. A message of an exception is a constructor of `Reason`, without the values that the
-- source formats into it. The digest of a model is the parameter `sha256` of the blackboard; the
-- JSON text of an event and the reading of a line are parameters of Events/Durable, whose file is a
-- text that Events/Lines splits as Python does; the saving of the final resource is a parameter of
-- Projection/Complete, and regular expressions are parameters of Redaction. The loop over the
-- Evidence of a report is on fuel, which Reporting/Fuel shows to be enough; the other loops run over
-- finite sequences, and no other definition uses fuel.
--
-- Not modelled: the JSON schemas of the tools of the blackboard and their claims on the ledger; the
-- rebuilding of a projection's progress, and the copy of the repository on disk; values and
-- provenance of Evidence; the risk rules; the agents, prompts and model calls; the clients of remote
-- services; the HTTP interfaces, the text of reports, evaluation and scripts.
pub mod Prelude
pub mod Errors
pub mod Contracts
pub mod Validation
pub mod Acceptance
pub mod Blackboard
pub mod Assignments
pub mod Budget
pub mod Review
pub mod Events
pub mod Runs
pub mod Projection
pub mod Reporting
pub mod Redaction
pub mod Examples
