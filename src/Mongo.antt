-- ===== src/Mongo.antt =====
-- packages/implementations-lib/src: the oracle finder and the builtin oracle provider over MongoDB,
-- the provider with its Redis cache.
pub mod Collection
pub mod Finder
pub mod Provider
pub mod Search
