-- ===== src/Http.antt =====
-- src/http: the HTTP server and its adapters for Express and Koa.
pub mod HttpServer
pub mod Adapters
