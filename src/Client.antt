-- ===== src/Client.antt =====
-- src/client: authentication of the requests.
pub mod Auth
