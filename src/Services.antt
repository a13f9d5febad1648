-- ===== src/Services.antt =====
-- internal/services/authz.go: the service, over the caches of the projects, the Descope SDK and the
-- metrics collector. A request is one function on the state; time is read from the world.
pub mod Backend
pub mod Check
pub mod Access
pub mod Projects
