-- ===== src/Agents.antt =====
-- The runs of agents and what guards them (services/api/src/tkp_api/agents/guardrail.py and orchestrator.py).
pub mod Guardrail
pub mod Window
pub mod Orchestrator
pub mod Runs
mod Tests
