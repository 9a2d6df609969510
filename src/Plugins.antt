-- ===== src/Plugins.antt =====
-- src/plugins: plugins in Lua, as scripts that access the context of a request.
pub mod Patterns
pub mod Claims
pub mod Jwt
pub mod Auth
pub mod IpFilter
pub mod Authz
pub mod RateLimit
pub mod Transform
pub mod Machine
