-- ===== src/Examples.antt =====
-- Runs of the parts at concrete inputs.
mod Acceptors
mod Proposers
mod Locks
mod Files
mod Traces
mod Clients
mod Usages
mod Groups
mod Texts
mod LocalSpark
mod Paths
