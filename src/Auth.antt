-- ===== src/Auth.antt =====
-- auth.go, with the authentication handlers of api.go.
pub mod Gate
pub mod Flows
pub mod Handlers
pub mod Browser
pub mod GateLaws
pub mod Unserved
pub mod FlowLaws
pub mod HandlerLaws
