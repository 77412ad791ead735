-- ===== src/Clients.antt =====
-- src/clients: queries, responses and the iterative query controller.
pub mod ContentType
pub mod Query
pub mod Response
pub mod Controller
