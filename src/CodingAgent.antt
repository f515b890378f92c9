-- ===== src/CodingAgent.antt =====
-- model-packs/coding-agent/domain-lib: the plan of a coding job and its execution.
pub mod Dag
