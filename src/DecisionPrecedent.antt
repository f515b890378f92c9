-- ===== src/DecisionPrecedent.antt =====
-- src/lumina/decision_precedent: how much a precedent supports a decision.
pub mod Policy
pub mod Scorer
