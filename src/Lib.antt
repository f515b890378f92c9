-- ===== src/Lib.antt =====
-- Lumina: the deterministic core of the neuro-symbolic framework.
--
-- The program wraps a language model in deterministic code: roles and modes decide who may do
-- what, transactions and the staging area decide what reaches disk, time-to-live entries and ring
-- buffers bound what a session remembers, and scored candidates are routed by a policy. These
-- modules model the parts of that core which are pure decisions over their inputs or keep a small
-- state of their own. I/O, HTTP, persistence back ends and the language model are not modelled.
--
-- Base: names shared by all files, dictionaries with text keys (Base/Dict), results of code that may
-- raise (Base/Outcome), membership and infix tests on texts (Base/Text), a stable sort (Base/Sorting),
-- filters and first matches (Base/Select), membership in and counts of an id in a list
-- (Base/Membership, Base/Counting).
-- Core/Permissions: src/lumina/core/permissions.py. Model has its data and `parse_octal`, Check the
-- decision of `check_permission`, Categories who counts as owner, group and others, Roles the overlay
-- of the domain role, Grants the rules that it decides, Laws what follows for callers, Modes the symbolic notation and the tiers.
-- An operation is a number, the sum of its flags.
-- Core/StateMachine: src/lumina/core/state_machine.py. `advance` takes the clock's value; the model's
-- file has its operations, Legal the diagram, Runs sequences of calls, Codec the dictionaries.
-- Core/Ttl: src/lumina/core/ttl_manager.py, times and TTLs as numbers of ticks.
-- ThreadRouting/Router: src/lumina/thread_routing/router.py.
-- Router has `decide_thread_route` in the steps of its body, Ordering the sorted candidates, Chain the
-- chain of branches, Decisions what they decide, Stable the independence of the order. A score is a
-- number of millionths, so that 1.0 is 1000000; the code's floats are compared and subtracted only.
-- ThreadRouting/Policy: src/lumina/thread_routing/policy.py and src/lumina/core/policy_validation.py,
-- the resolution of a policy document for an organization and a site; the document is a value as the
-- YAML loader returns it. Valid has what a resolved policy satisfies, Routing a turn routed by one.
-- DecisionPrecedent/Scorer: src/lumina/decision_precedent/scorer.py. Tiers has the tiers
-- that it decides. An instant is a number of microseconds.
-- DecisionPrecedent/Policy: src/lumina/decision_precedent/policy.py, by the helpers of
-- ThreadRouting/Policy that both sources repeat line by line.
-- ConnectorRouting/Router: src/lumina/connector_routing/router.py. Router has the data and the
-- eligibility of an entry, Steps the branches of `resolve_connector` in their order, Sound and Answer
-- what an answer names, Stable the independence of the registry's order and the override.
-- CodingAgent/Dag: model-packs/coding-agent/domain-lib/dag_validator.py over the plan of
-- tier_contracts.py. Dag has `stable_topological_sort`, Spec the topological orders apart from it,
-- Release and Loop the invariant of its queue, Sorted the result. Dag/Ready has `validate_dag`,
-- the lineage checks, `ready_node_ids`, and of tier3_ready_scheduler.py the slices that may run;
-- Valid, Progress and Slices have their theorems.
-- Daemon/Report: src/lumina/daemon/report.py; Approvals has what a sequence of decisions leaves.
-- Daemon/Scheduler: src/lumina/daemon/scheduler.py. Scheduler has its state, Batch the tasks of a run,
-- Execute the runs and their triggers, Review the pending proposals; Loaded, Results, Prefix, History, Flat and
-- Found have the theorems. The registries of tasks.py and what a task returns or raises are arguments; a report
-- that is in progress is a value that the steps of History replace.
-- Daemon/Monitor: src/lumina/daemon/resource_monitor.py and src/lumina/daemon/preemption.py, in steps
-- between two suspensions of the event loop, a call of `stop` being two; States and Consistent have the states
-- that are reached (with no `start` and no other `stop` while a `stop` waits for its task), Preemption when a
-- task yields, IdleTime what idle time is, Idle when a task is sent out. The sampling
-- of the load and the black box's triggers are not modelled; a score is a number of millionths.
-- Session/RingBuffer: src/lumina/session/ring_buffer.py, a list of turns bounded by `append`; Window has
-- the calls and what the buffer shows.
-- Staging/Templates: src/lumina/staging/template_registry.py and the checks of file_writer.py.
-- Staging/Service: src/lumina/staging/staging_service.py over Core/StateMachine and Staging/Templates:
-- Approval has the branches of a review, Areas the areas that calls reach, Once later reviews, Listing
-- the listing. What the file system answers, at the write and at the save of an envelope (a save that is
-- cut short is not modelled), the generated ids and the clock are arguments. The target
-- path's placeholders, the merge with a template's default structure, unreadable envelope files and
-- the lock are not modelled.
--
-- A property about calls in a row stands on a relation of the reached states (Staging.Service.Areas,
-- Core.StateMachine.Legal, Daemon.Scheduler.History) or a fold over a list of calls (Session.RingBuffer.Window).
--
-- Numbers are unbounded, as Python's are. The loops run over lists and need no fuel, but for the
-- `while ready` of the topological sort: it is given a round for each id, which is enough, since a
-- round moves an id to the order for good (CodingAgent/Dag/Loop).
mod Base
pub mod Core
pub mod ThreadRouting
pub mod ConnectorRouting
pub mod CodingAgent
pub mod Session
pub mod DecisionPrecedent
pub mod Staging
pub mod Daemon
