-- ===== src/Client.antt =====
-- src/client: the HTTP client.
pub mod HttpClient
