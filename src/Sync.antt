-- ===== src/Sync.antt =====
-- app/sync/pipeline.py: the synchronisation of one tenant, in parts. State.antt has what a run
-- holds and what Canvas answers, Resources.antt the reads of Canvas and the writes of rows, and
-- Tenant.antt the transaction around them. The proofs are in the other modules.
pub mod State
pub mod Resources
pub mod Tenant
