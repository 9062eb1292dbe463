-- ===== src/Routing/Lan/Hosts.antt =====
-- Sources without a mask in the rules of the LAN: `peer_sources` writes a single host that way.
use wg_busy.Prelude.{ℕ, ◌≡◌, refl, false, List, [], ◌∷◌, none, Text, cut, contains_byte, All, arith}
use wg_busy.Net.Parse.{parse_cidr}
use wg_busy.Models.{Peer, AppConfig}
use wg_busy.Models.Addresses.{peer_sources}
use wg_busy.Routing.Lan.{
  bypass_pair, source_bypass, peer_bypass, peers_bypass, peers_devices_bypass, numbered,
  local_network_cidrs, local_network_rules,
}

cut_missing : (b : ℕ) (s : Text) → contains_byte b s ≡ false → (cut b s).1 ≡ none
unfolding cut contains_byte
cut_missing b [] h = refl
cut_missing b (c ∷ s) h = ground (arith, cut_missing b s)

parse_cidr_missing : (s : Text) → contains_byte 47 s ≡ false → parse_cidr s ≡ none
unfolding parse_cidr
parse_cidr_missing s h = simp (cut_missing 47 s h) refl

source_bypass_host :
    (lan : List Text) (s : Text) → contains_byte 47 s ≡ false → source_bypass lan s ≡ []
unfolding source_bypass bypass_pair
source_bypass_host [] s h = refl
source_bypass_host (d ∷ ds) s h = simp (parse_cidr_missing s h, source_bypass_host ds s h) refl

abbrev pub IsHost : Text → Type 0
IsHost s = contains_byte 47 s ≡ false

peer_bypass_hosts : (lan ss : List Text) → All IsHost ss → peer_bypass lan ss ≡ []
unfolding peer_bypass
peer_bypass_hosts lan [] h = refl
peer_bypass_hosts lan (s ∷ ss) h =
    simp (source_bypass_host lan s h.0, peer_bypass_hosts lan ss h.1) refl

peers_bypass_hosts :
    (lan : List Text) (ps : List Peer)
    → All (λ p. All IsHost (peer_sources p.allowed_ips)) ps
    → peers_bypass lan ps ≡ []
unfolding peers_bypass
peers_bypass_hosts lan [] h = refl
peers_bypass_hosts lan (p ∷ ps) h =
    ground
      (arith, peer_bypass_hosts lan (peer_sources p.allowed_ips) h.0, peers_bypass_hosts lan ps h.1)

-- If every source of every peer is a single host, written without a mask, then no peer's source gets
-- a rule to the LAN: the rules are those of the devices behind the peers only.
pub hosts_have_no_bypass :
    (env : Text) (cfg : AppConfig)
    → All (λ p. All IsHost (peer_sources p.allowed_ips)) cfg.peers
    → local_network_rules env cfg
      ≡ numbered 17000 (peers_devices_bypass (local_network_cidrs env) cfg.peers)
unfolding local_network_rules
hosts_have_no_bypass env cfg h =
    simp (peers_bypass_hosts (local_network_cidrs env) cfg.peers h) refl
