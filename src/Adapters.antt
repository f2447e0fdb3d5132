-- ===== src/Adapters.antt =====
-- packages/implementations-lib/src/oracles: the adapter of a remote oracle, and the factory that
-- makes an adapter for an oracle.
pub mod Http
pub mod Factory
