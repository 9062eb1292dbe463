-- ===== src/Config.antt =====
-- internal/config/config.go: the store that holds the configuration, keeps it on disk, and brings the
-- live services to it. The disk, the shell and the other services are in a world `W`, and what the
-- store asks of them in an `Env`.
pub mod Tables
pub mod Disk
pub mod Applied
pub mod Stats
pub mod Live
pub mod Write
pub mod Start
pub mod Runs
mod Tests
use wg_busy.Prelude.{ℕ, Bool, List, [], ◌∷◌, ◌++◌, Option, Text, codes}
use wg_busy.Models.{Peer, ServerConfig, AppConfig, GatewayNet}
use wg_busy.Models.Gateways.{gateway_nets}
use wg_busy.Routing.Masquerade.{Advertised}
use wg_busy.Routing.Hooks.{Host}

-- `routing_bgp` and the advertised routes are maps in the source, and lists here.
pub record Store : Type 0 where
  pub config_path : Text
  pub wg_config_path : Text
  pub config : AppConfig
  pub routing_state : AppConfig
  pub routing_nets : List GatewayNet
  pub routing_bgp : List Advertised
  pub stats_dirty : Bool
  pub wg_restart_pending : Bool
  pub wg_applied_server : ServerConfig
  pub wg_has_applied : Bool

-- What reading a file comes to: `os.IsNotExist` is an outcome of its own.
pub data ReadResult : Type 0 where
  not_exist unreadable : ReadResult
  content : Text → ReadResult

-- Packages yaml and os, the shell, the BGP service, and the callbacks that are registered with the
-- store: its providers of on-link networks and of advertised routes, and its listeners.
pub record Env (W : Type 0) : Type 0 where
  pub marshal : AppConfig → Option Text
  pub unmarshal : Text → Option AppConfig
  pub read_file : W → Text → ReadResult
  -- `os.MkdirAll` of the directory of a file
  pub make_dir_of : W → Text → W × Bool
  pub write_file : W → Text → Text → W × Bool
  pub rename : W → Text → Text → W × Bool
  pub run : W → Text → List Text → Option Text → W × Text × Option Text
  pub is_up : W → Bool
  pub exec : W → Text → W × Bool
  pub configure_bgp : W → AppConfig → W × Option Text
  pub on_change : W → AppConfig → W
  pub zt_gateways : W → List GatewayNet
  pub bgp_advertised : W → List Advertised
  pub lan_env : Text
  pub range_over : List Peer → List Peer

-- The `gatewayNets` and `advertisedRoutes` of the store, for the commands of package routing.
abbrev pub host_for : {W : Type 0} → Env W → AppConfig → W → Host
host_for env cfg w = record {
  gateways = gateway_nets cfg.server.address (env.zt_gateways w);
  advertised = env.bgp_advertised w;
  lan_env = env.lan_env;
  range_over = env.range_over;
}

-- The host that the applied routing state was made for.
abbrev pub applied_host : {W : Type 0} → Env W → Store → Host
applied_host env s = record {
  gateways = s.routing_nets;
  advertised = s.routing_bgp;
  lan_env = env.lan_env;
  range_over = env.range_over;
}
