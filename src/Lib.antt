-- ===== src/Lib.antt =====
-- A model of the decision logic of the agent observability lab: how a candidate configuration of a
-- support agent is tried in simulation, evaluated, compared with the baseline, and recommended.
--
-- The program takes a saved case, whose bundle holds a scenario and the expected behaviour, and runs
-- it in a simulated environment: adapters answer the agent's tool calls from recorded responses or
-- disposable state, and a fault script may inject errors. Evaluators check the facts of a run
-- against the bundle. A comparison of a baseline run and a candidate run gives a verdict, and a suite
-- comparison runs every case twice and recommends one configuration.
--
-- Parts and files:
-- - Base: the helpers that the parts share, among them Python's ==, dict, sorted(set(...)), and the
--   representation of floats, amounts and identifiers.
-- - Support: src/app/domain/support: schemas, the repository protocol as a record of operations on a
--   state, and SupportService (Service: get_order, create_ticket, request_refund,
--   get_latest_policy).
-- - Agent: src/app/domain/agent: schemas.py, and Service the tools of SupportAgentService (service.py:
--   get_order_status, get_policy, propose_refund, confirm_refund, escalate). Bundle: src/app/domain/bundle/schemas.py.
-- - Simulation: src/app/domain/simulation. Events is the collector (emit), Faults the fault script
--   and FaultInjectingRepository, SupportState and Stateful the in-memory
--   StatefulSupportAdapter (seed and reset; call),
--   Recorded the RecordedReadAdapter (call, reset), Coverage the registry and its coverage
--   report, Run the result of a run, Spans the mapping of the agent's spans to events and Runner
--   the verdict and the checks before a run (runner.py), Arguments the normal form of arguments.
-- - Comparison: src/app/domain/comparison. Evaluators holds the checks of evaluators.py, Compare the
--   verdict of compare.py (compare_runs), Experiment the validators of experiment.py. Acceptance
--   states without the code what the checks ask for.
-- - Suite: src/app/domain/suite/runner.py: Runner the totals and the verdict (_finalize_result),
--   Runner/Validation the checks, Runner/Requests the arguments of each run, Runner/Cases the loop,
--   run_suite_comparison and run_cohort_model_comparison.
-- - Workflow: src/app/domain/workflow: Models the checkpointed state (models.py, errors.py), Nodes the
--   dependencies, the attempts and the shared deltas, Evidence and Actions one function per node
--   (nodes.py), Graph the edges (graph.py), Engine the interface of the library that runs the graph,
--   Service the WorkflowService (start, inspect, resume, confirm, reject), Defaults the default
--   dependencies over the support service (service.py).
-- - Retrieval: src/app/domain/retrieval: Contracts (contracts.py), Chunking the DeterministicChunker
--   (chunking.py), Fusion the reciprocal-rank fusion (fusion.py), Answers the cited answers
--   (answers.py).
-- Modules below these hold the proofs, named for what they prove; Tests hold concrete inputs.
--
-- Conventions:
-- - An operation that changes an object takes the object's record last and returns the new one
--   beside its result; an exception is a value of a result type.
-- - The text of an error or a reason is a constructor for each message, over the values put into it,
--   and a test whether a text holds some words is a test of the constructor. How the reason of an
--   evaluator is formatted is a parameter of the evaluators, which need its length.
-- - The lengths that pydantic checks are in the model where the code builds a record from text of its
--   callers or of the repository: the deltas and the reasons of a comparison, the response and the
--   proposal of a workflow, a ticket's subject, an answer and its citations.
-- - The operations of the support repository are those that return. An exception of the database
--   leaves SupportService as it is, since it catches none; the dependencies of the workflow may raise
--   any exception.
-- - A UUID is its canonical text. A float is a natural number of units of 2 ^ -1074: all floats that
--   the code compares here are finite and not negative. Adding floats rounds, so that addition is a
--   parameter of the suite's totals. A Decimal amount is in cents.
-- - Reading a UUID from a text, the text of a Decimal, fresh identifiers, clocks and run_bundle are
--   arguments; every theorem holds for all of them.
-- - Recursion is on lists, with two exceptions. A run of the workflow graph takes the number of nodes
--   it may visit: the rank of its first node, at most 7, is enough. The loop over a document's windows
--   takes as many iterations as there are tokens, and each one moves on by a token at least.
-- - LangGraph, which runs the workflow graph, is not part of the repository: the service takes an
--   engine (Workflow.Engine.GraphEngine) as a parameter, with its documented behaviour as a law. The
--   law says it in terms of Workflow.Graph.drive: run a node, again while its retry policy allows,
--   merge the keys the node returns, follow the edge, and keep the state before a node that
--   interrupts or raises, with its interrupt pending when the confirmation raises after a resume.
--   reference_engine is an engine with that behaviour. The support dependencies
--   are a record of operations on a world.
--
-- Not modelled: databases, the HTTP interface, the command line, calls of language models,
-- telemetry, which are input and output or third-party code; and, so far, the
-- bundle compiler, evidence mapping and failure grouping.
pub mod Base
pub mod Support
pub mod Agent
pub mod Simulation
pub mod Bundle
pub mod Comparison
pub mod Suite
pub mod Workflow
pub mod Retrieval
