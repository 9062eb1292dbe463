-- ===== src/Config/Start.antt =====
-- config.go: `Load`.
pub mod Reload
use wg_busy.Prelude.{
  ℕ, Bool, true, false, List, [], ◌∷◌, Option, none, some, if◌then◌else◌, Text, codes,
}
use wg_busy.Models.{ServerConfig, ZeroTierConfig, AppConfig}
use wg_busy.Config.{Store, Env, ReadResult, not_exist, unreadable, content}
use wg_busy.Config.Disk.{DiskError, save_yaml}
use wg_busy.Config.Tables.{some_missing, ensure_vpn_gateway_routing_table_ids}

-- The zero value of the struct.
abbrev pub zero_server : ServerConfig
zero_server = record {
  private_key = [];
  listen_port = 0;
  address = [];
  endpoint = [];
  dns = [];
  mtu = 0;
  table = [];
  fw_mark = [];
  pre_up = [];
  post_up = [];
  pre_down = [];
  post_down = [];
  bgp_enabled = false;
  bgp_listen_address = [];
  bgp_listen_port = 0;
  bgp_asn = 0;
  require_passkey = false;
  passkeys = [];
}

abbrev zero_zerotier : ZeroTierConfig
zero_zerotier = record {
  enabled = false;
  port = 0;
  disable_masquerade = false;
  exclude_advertised_routes_from_masquerade = false;
  networks = [];
}

-- The configuration of a host without a file.
abbrev pub default_config : AppConfig
default_config = record {
  server = record zero_server {
    listen_port = 51820;
    address = codes "10.0.0.1/24";
    dns = codes "1.1.1.1,8.8.8.8";
    table = codes "off";
    post_up = codes "iptables -A POSTROUTING -t nat -o eth0 -j MASQUERADE";
    post_down = codes "iptables -D POSTROUTING -t nat -o eth0 -j MASQUERADE";
  };
  peers = [];
  bgp_peers = [];
  zerotier = zero_zerotier;
  vpn_gateways = [];
}

-- A store that has applied nothing yet: a restart of wg0 is pending.
abbrev pub started : Text → Text → AppConfig → Store
started config_path wg_config_path cfg = record {
  config_path = config_path;
  wg_config_path = wg_config_path;
  config = cfg;
  routing_state = cfg;
  routing_nets = [];
  routing_bgp = [];
  stats_dirty = false;
  wg_restart_pending = true;
  wg_applied_server = zero_server;
  wg_has_applied = false;
}

pub data LoadResult : Type 0 where
  opened : Store → LoadResult
  reading_failed parsing_failed : LoadResult
  persisting_failed : DiskError → LoadResult

module _ {W : Type 0} (env : Env W) (config_path wg_config_path : Text) where
  persisted : Store → W × Option DiskError → W × LoadResult
  persisted s (w, none) = (w, opened s)
  persisted s (w, some e) = (w, persisting_failed e)

  -- Tables that are missing are assigned, and saved at once.
  completed : W → AppConfig → W × LoadResult
  unfolding persisted
  completed w cfg =
      let s = started config_path wg_config_path (ensure_vpn_gateway_routing_table_ids cfg) in
      if some_missing cfg.vpn_gateways then persisted s (save_yaml env s w) else (w, opened s)

  parsed_config : W → Option AppConfig → W × LoadResult
  unfolding completed
  parsed_config w none = (w, parsing_failed)
  parsed_config w (some cfg) = completed w cfg

  read_config : W → ReadResult → W × LoadResult
  unfolding parsed_config
  read_config w not_exist = (w, opened (started config_path wg_config_path default_config))
  read_config w unreadable = (w, reading_failed)
  read_config w (content text) = parsed_config w (env.unmarshal text)

  unfoldable pub load : W → W × LoadResult
  unfolding read_config
  load w = read_config w (env.read_file w config_path)
