-- ===== src/Tests.antt =====
-- Runs on concrete inputs: each theorem with hypotheses at an input where they hold.
pub mod Fixtures
mod Queues
mod Guards
mod Packets
mod Values
mod Agents
pub mod Pipelines
mod Policies
mod Nodes
mod Captures
mod Timings
