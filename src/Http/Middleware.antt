-- ===== src/Http/Middleware.antt =====
-- The middleware of the HTTP interface: internal/interfaces/http/middleware.go, and its order in
-- internal/bootstrap/app.go. A handler is the sequence of calls that it makes of the response
-- writer, which may depend on what the calls return; the writer itself is gin's or net/http's.
pub mod Bodies
pub mod Writers
pub mod Stack
pub mod Net
