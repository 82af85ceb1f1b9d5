-- ===== src/Routing.antt =====
-- The packages lib/query and lib/routing: the form of a query, the routers that dispatch it and the
-- server's view of it.
pub mod Query
pub mod Priority
pub mod Scope
pub mod Incoming
