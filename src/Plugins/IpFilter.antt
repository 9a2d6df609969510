-- ===== src/Plugins/IpFilter.antt =====
-- src/plugins/ip_filter.lua, with the two lists as arguments; the file has both empty. The lines of
-- the log are left out.
pub mod Lists
use dgsw_class_pg_proxy.Prelude.{
  ◌-◌, String, Bool, not, ◌&&◌, ◌||◌, List, any, drop, length, take, ltb, if◌then◌else◌,
}
use dgsw_class_pg_proxy.Prelude.Text.{Bytes, codes, as_bytes}
use dgsw_class_pg_proxy.Lua.Context.{req_table, Script, finish, access, req, reject}
use dgsw_class_pg_proxy.Lua.Engine.{Outcome, nothing, raised}
use dgsw_class_pg_proxy.Plugins.Patterns.{same_bytes}

-- `pattern:sub(-1)` and `pattern:sub(1, -2)`.
abbrev last_byte : Bytes → Bytes
last_byte s = drop (length s - 1) s

abbrev without_last : Bytes → Bytes
without_last s = take (length s - 1) s

abbrev pub ip_matches_one : Bytes → Bytes → Bool
ip_matches_one ip pattern =
    same_bytes ip pattern
    || (same_bytes (last_byte pattern) (codes "*")
        && same_bytes (take (length (without_last pattern)) ip) (without_last pattern))

unfoldable pub ip_matches : String → List String → Bool
unfolding as_bytes same_bytes
ip_matches ip list = any (λ pattern. ip_matches_one (as_bytes ip) (as_bytes pattern)) list

abbrev pub check_ip : List String → List String → String → Script Outcome
check_ip blocklist allowlist ip =
    if ltb 0 (length blocklist) && ip_matches ip blocklist
    then access (reject 403 "Forbidden: your IP is blocked") (λ a. finish nothing)
    else if ltb 0 (length allowlist) && not (ip_matches ip allowlist)
    then access (reject 403 "Forbidden: IP not allowed") (λ a. finish nothing)
    else finish nothing

unfoldable pub on_request : List String → List String → Script Outcome
unfolding ip_matches
on_request blocklist allowlist =
    access req (λ answer. elim answer [
      | req_table t ↦ check_ip blocklist allowlist t.ip
      | _ ↦ finish raised
    ])
