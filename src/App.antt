-- ===== src/App.antt =====
-- delivery/app.py: the HTTP application. FastAPI, which routes a request and reads its body, is a library.
pub mod Details
pub mod Bounded
pub mod Responses
pub mod Admission
pub mod Admitted
mod Tests
