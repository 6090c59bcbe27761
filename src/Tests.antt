-- ===== src/Tests.antt =====
-- The results at concrete inputs where their hypotheses hold.
mod Texts
mod Tasks
mod Store
mod Commands
mod Tabs
mod Ledgers
mod Rails
mod Findings
mod Peers
mod Wires
