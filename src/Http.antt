-- ===== src/Http.antt =====
-- src/onceproof/http.py: the ASGI boundary of the service.
pub mod Headers
pub mod Body
pub mod Handler
pub mod Routes
pub mod InFlight
pub mod Bounded
pub mod Framing
pub mod Unauthenticated
pub mod Parsed
pub mod Arguments
pub mod Answers
pub mod Challenge
