-- ===== src/Ws.antt =====
-- The App's WebSocket connections (api/modules/ws): the manager, and what it delivers.
pub mod Manager
pub mod Delivery
pub mod Examples
