-- ===== src/Aggregate.antt =====
-- packages/domain-lib/src/aggregate.ts, class AccountLookupAggregate: one module for each region of
-- the class, with the proofs about it in the modules below. Logging and metrics are left out.
pub mod State
pub mod Validate
pub mod Oracles
pub mod Queries
pub mod Rejections
pub mod Associations
pub mod Kinds
pub mod Passes
pub mod Ends
pub mod Dispatch
pub mod Admin
