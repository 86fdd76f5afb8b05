-- ===== src/Api.antt =====
-- backend/internal/api: the Connect service of qlab.v1, from the request's message to the response's.
pub mod Convert
pub mod Handlers
pub mod GoText
pub mod Auth
pub mod Served
mod Tests
