-- ===== src/Http.antt =====
-- The HTTP server of ad_system/server3/.
pub mod Chars
pub mod Request
pub mod Parser
pub mod Uri
pub mod Reply
pub mod Handler
pub mod Connection
