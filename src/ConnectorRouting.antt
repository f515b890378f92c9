-- ===== src/ConnectorRouting.antt =====
-- src/lumina/connector_routing: which connector serves a request.
pub mod Router
