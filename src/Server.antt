-- ===== src/Server.antt =====
-- cmd/server/main.go: the goroutines of the server and the channels between them, and the handlers of
-- internal/alpaca/alpaca.go that feed the channels.
pub mod Channel
pub mod Seeding
pub mod Refresh
pub mod Workers
pub mod Startup
pub mod Shutdown
pub mod Endpoints
