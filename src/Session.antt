-- ===== src/Session.antt =====
-- The objects of a session: producers, consumers, and the transports that own them.
pub mod Producing
pub mod RecvTransport
pub mod Registry
pub mod SendTransport
