-- ===== src/Examples.antt =====
-- The theorems at concrete inputs: a small world to run the code in, and the instances.
mod World
mod Handlers
mod Registry
mod Storage
mod Services
mod Search
mod Routes
mod Adapters
mod Startup
mod Recall
mod Durable
mod Coherence
mod Overlap
mod LastCommit
mod Doubles
mod LoadTest
mod Configuration
