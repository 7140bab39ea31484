-- ===== src/Tests.antt =====
-- Concrete runs of the definitions, and the theorems at concrete inputs.
mod Data
mod Edwards
mod Protocol
mod Registry
mod Extra
mod TxSet
mod Indexer
mod Claim
mod Payment
mod Store
mod Shuffle
mod Start
mod Concurrent
mod Lookup
mod Process
mod Lifecycle
