-- ===== src/Lua.antt =====
-- src/lua: the context that plugins see, the sources of the plugins, the engine that runs them, and
-- the functions that the engine offers them.
pub mod Context
pub mod Sources
pub mod Engine
pub mod Base64
pub mod Uuid
pub mod Hmac
pub mod Json
pub mod Globals
