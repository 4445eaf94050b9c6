-- ===== src/WebServer.antt =====
-- src/webserver: what the server sends, and the routes of its requests.
pub mod Messages
pub mod Broadcast
pub mod Routes
pub mod DateRoute
pub mod SiteHistory
pub mod Router
pub mod Behavior
