-- ===== src/Agtp.antt =====
-- The reference adapters under pkg/agtp.
pub mod RouteTypes
pub mod GatewayRoute
pub mod Diversion
