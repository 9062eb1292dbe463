-- ===== src/Routing/Guards.antt =====
-- routing.go: the temporary rejects that guard strict sources while the state is rebuilt.
pub mod Covered
use wg_busy.Prelude.{
  ℕ, Bool, true, false, not, ◌||◌, List, [], ◌∷◌, ◌++◌, if◌then◌else◌, Text, codes, concat,
  contains_byte, has,
}
use wg_busy.Models.{Peer, AppConfig}
use wg_busy.Models.Addresses.{peer_sources, first_seen}
use wg_busy.Models.Gateways.{wg_device}

abbrev pub strict_apply_comment : Text
strict_apply_comment = codes "wg-busy strict apply"

-- The sources of the enabled strict peers, with repetitions.
strict_sources_of : List Peer → List Text
strict_sources_of [] = []
strict_sources_of (p ∷ ps) =
    (if not p.enabled || not p.strict_policy_routing then [] else peer_sources p.allowed_ips)
    ++ strict_sources_of ps

unfoldable pub strict_peer_sources : AppConfig → List Text
unfolding strict_sources_of first_seen
strict_peer_sources cfg = first_seen [] (strict_sources_of cfg.peers)

unfoldable pub union_sources : List Text → List Text → List Text
unfolding first_seen
union_sources a b = first_seen [] (a ++ b)

-- The sources that `Reconcile` guards.
unfoldable pub affected_sources : AppConfig → AppConfig → List Text
affected_sources previous next =
    union_sources (strict_peer_sources previous) (strict_peer_sources next)

-- One temporary rule, to be inserted or deleted.
guard_command : Bool → Text → Text
guard_command add src =
    let v6 = contains_byte 58 src in
    concat (
      (if v6 then codes "ip6tables" else codes "iptables")
      ∷ (if add then codes " -w -I FORWARD 1 -i " else codes " -w -D FORWARD -i ")
      ∷ wg_device
      ∷ codes " -s "
      ∷ src
      ∷ codes " -m comment --comment '"
      ∷ strict_apply_comment
      ∷ codes "' -j REJECT --reject-with "
      ∷ (if v6 then codes "icmp6-adm-prohibited" else codes "icmp-admin-prohibited")
      ∷ (if add then [] else codes " 2>/dev/null || true")
      ∷ [])

unfoldable pub temporary_reject_commands : List Text → Bool → List Text
unfolding guard_command
temporary_reject_commands [] add = []
temporary_reject_commands (s ∷ ss) add = guard_command add s ∷ temporary_reject_commands ss add
