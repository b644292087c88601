-- ===== src/Samples.antt =====
-- Concrete inputs: tests of the definitions, and each theorem applied once.
mod Graphs
mod Encoding
mod JobRuns
mod Risks
mod Targets
mod Requests
mod Values
mod Lifecycle
mod Runs
mod Verbs
mod Guards
mod Leases
mod Steps
mod Servers
