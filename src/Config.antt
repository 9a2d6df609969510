-- ===== src/Config.antt =====
-- src/config.rs. The TOML parser and the file system are parameters: `read_to_string` answers a
-- file's text, and `from_str` what serde reads before the defaults are put in.
use mathlib.Core.Option.{get_or}
use dgsw_class_pg_proxy.Prelude.{ℕ, String, Option, none, some, List, map}

pub record ListenerConfig : Type 0 where
  pub addr : String
  pub http_addr : String
  pub workers : ℕ

pub record TlsConfig : Type 0 where
  pub cert : String
  pub key : String

pub record AdminConfig : Type 0 where
  pub addr : String

pub record PluginsConfig : Type 0 where
  pub dir : String
  pub pipeline : List String

pub record UpstreamConfig : Type 0 where
  pub name : String
  pub targets : List String
  pub lb : String
  pub health_check_path : String
  pub health_check_interval : ℕ

pub record Config : Type 0 where
  pub listener : ListenerConfig
  pub tls : TlsConfig
  pub admin : AdminConfig
  pub plugins : PluginsConfig
  pub upstream : List UpstreamConfig

abbrev pub default_workers : ℕ
default_workers = 0

abbrev pub default_lb : String
default_lb = "round_robin"

abbrev pub default_health_path : String
default_health_path = "/health"

abbrev pub default_health_interval : ℕ
default_health_interval = 5

-- A table as it stands in the file: the keys that have a default may be missing.
pub record RawListener : Type 0 where
  pub addr : String
  pub http_addr : String
  pub workers : Option ℕ

pub record RawUpstream : Type 0 where
  pub name : String
  pub targets : List String
  pub lb : Option String
  pub health_check_path : Option String
  pub health_check_interval : Option ℕ

pub record RawConfig : Type 0 where
  pub listener : RawListener
  pub tls : TlsConfig
  pub admin : AdminConfig
  pub plugins : PluginsConfig
  pub upstream : List RawUpstream

unfoldable pub listener_of : RawListener → ListenerConfig
listener_of r = record {
  addr = r.addr;
  http_addr = r.http_addr;
  workers = get_or r.workers default_workers;
}

unfoldable pub upstream_of : RawUpstream → UpstreamConfig
upstream_of r = record {
  name = r.name;
  targets = r.targets;
  lb = get_or r.lb default_lb;
  health_check_path = get_or r.health_check_path default_health_path;
  health_check_interval = get_or r.health_check_interval default_health_interval;
}

unfoldable pub config_of : RawConfig → Config
unfolding listener_of upstream_of
config_of r = record {
  listener = listener_of r.listener;
  tls = r.tls;
  admin = r.admin;
  plugins = r.plugins;
  upstream = map upstream_of r.upstream;
}

pub data ConfigError : Type 0 where
  unreadable malformed : ConfigError

pub data ConfigResult : Type 0 where
  loaded : Config → ConfigResult
  failed : ConfigError → ConfigResult

module _ (read_to_string : String → Option String) (from_str : String → Option RawConfig) where
  abbrev parse : Option RawConfig → ConfigResult
  parse none = failed malformed
  parse (some raw) = loaded (config_of raw)

  -- `Config::load`.
  unfoldable pub load : String → ConfigResult
  unfolding config_of
  load path = elim (read_to_string path) [ none ↦ failed unreadable | some s ↦ parse (from_str s) ]
