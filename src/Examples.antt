-- ===== src/Examples.antt =====
-- Concrete inputs at which the theorems apply.
mod Ordering
mod Lifecycle
mod Authentication
mod Services
mod Caching
mod Jwt
mod Settings
mod Responses
mod Routing
mod Actions
mod Derived
mod Serving
mod Recipes
mod Logging
