-- ===== src/Http.antt =====
-- Requests and responses of net/http, and internal/httpx/http.go.
mod Messages
mod Checks
unfoldable pub use Messages.*
unfoldable pub use Checks.*
