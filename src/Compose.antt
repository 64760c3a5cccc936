-- ===== src/Compose.antt =====
-- docker/compose: the engine that runs a compose file on one daemon without a swarm.
pub mod Order
pub mod Engine
