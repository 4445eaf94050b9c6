-- ===== src/Coap.antt =====
-- src/coap: CoAP messages and the link documents that devices answer a discovery with.
pub mod CoreLink
pub mod Message
pub mod Discovery
pub mod Flap
