-- ===== src/Demo.antt =====
-- The demo service of demo/src: its store, dashboard, webhook server and rules.
pub mod Html
pub mod Store
pub mod Dashboard
pub mod Server
pub mod Uri
pub mod GitHub
pub mod Rules
