-- ===== src/Auth.antt =====
-- rusty-gasket/src/auth: authentication and authorization.
pub mod Identity
pub mod Errors
pub mod Chain
pub mod Policy
pub mod Context
pub mod Middleware
pub mod Extractors
pub mod Bearer
pub mod Jwt
pub mod Credentials
