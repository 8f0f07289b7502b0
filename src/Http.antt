-- ===== src/Http.antt =====
-- cold/net/http: requests, responses, and what the server does with them.
pub mod Url
pub mod Status
pub mod Response
pub mod Request
pub mod RequestParser
pub mod Session
pub mod Dispatcher
pub mod Server
pub mod StaticFile
