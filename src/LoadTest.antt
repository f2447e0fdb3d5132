-- ===== src/LoadTest.antt =====
-- scripts/: the two scripts of the load test. The sender publishes queries about parties, and the
-- responder answers the requests for a party's data as its FSP would.
pub mod Responder
pub mod Sender
