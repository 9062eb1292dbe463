-- ===== src/Routing/Egress/Granted.antt =====
-- Where the rules of the strict chains come from.
use wg_busy.Prelude.{
  All-map, ◌≡◌, ◌∙◌, ap, refl, Bool, true, false, not, ◌⊎◌, inl, inr, List, [], ◌∷◌, Option, none,
  some, Text, is_empty, trim_space, All, All-append, Any, arith, Bool-cases, if◌then◌else◌,
}
use wg_busy.Net.{Cidr, is_v4}
use wg_busy.Net.Parse.{parse_cidr}
use wg_busy.Models.{Peer, AppConfig, GatewayNet}
use wg_busy.Models.Find.{find_peer_by_id}
use wg_busy.Models.Addresses.{peer_sources}
use wg_busy.Models.Gateways.{wg_device, Resolved, failed, resolve_gateway, device}
use wg_busy.Routing.PolicyText.{split_via}
use wg_busy.Routing.Egress.{
  StrictEgressRule, allow, reject, all_v4, all_v6, allow_rule, eq_bool, family, source_is_v6,
  exit_route_rule, exit_route_rules, through_exit_node, exit_node_rules, routed_rule, policy_rule,
  policy_rules, terminal, source_rules, sources_rules, peer_egress, peers_rules,
  strict_egress_rules,
}

-- The prefix parses, and is of the rule's family.
abbrev pub OfFamily : Text → Bool → Type 0
OfFamily prefix v6 = (c : Cidr) × (parse_cidr prefix ≡ some c) × (not (is_v4 c.ip) ≡ v6)

-- The rule allows, on wg0, all addresses of its family or one of the routes of the exit node `x`
-- that is of its family.
abbrev pub OfExitNode : Peer → StrictEgressRule → Type 0
OfExitNode x r =
    (r.action ≡ allow)
    × (r.out_dev ≡ wg_device)
    × (((x.exit_node_allow_all ≡ true) × (r.dest ≡ (if r.is_v6 then all_v6 else all_v4)))
        ⊎ (OfFamily r.dest r.is_v6 × Any (λ route. r.dest ≡ trim_space route) x.exit_node_routes))

-- One of the policy routes: the rule allows its destination, of the rule's family, on the one device
-- that its gateway resolves to.
abbrev pub FromRoutes : List GatewayNet → List Text → StrictEgressRule → Type 0
FromRoutes gateways rs r =
    (r.action ≡ allow)
    × OfFamily r.dest r.is_v6
    × Any
        (λ route.
          (subnet : Text) × (gw : Text) × (split_via route ≡ some (subnet, gw))
          × (r.dest ≡ trim_space subnet)
          × (resolve_gateway (trim_space gw) gateways ≡ device r.out_dev))
        rs

-- Why a rule stands in a chain: it rejects; or it allows, on wg0, what the peer's exit node routes;
-- or it allows one of the peer's policy routes.
abbrev pub Reason : List GatewayNet → List Peer → Peer → StrictEgressRule → Type 0
Reason gateways exit_nodes p r =
    (r.action ≡ reject)
    ⊎ ((x : Peer) × (find_peer_by_id exit_nodes p.exit_node_id ≡ some x) × OfExitNode x r)
    ⊎ FromRoutes gateways p.policy_routes r

-- The rule is for packets from `src`, in the chain of its family.
abbrev pub ForSource : Text → StrictEgressRule → Type 0
ForSource src r = (r.source ≡ src) × (r.is_v6 ≡ source_is_v6 src)

-- The rule is for a source of the peer, and for one of the reasons.
abbrev pub Granted : List GatewayNet → List Peer → Peer → StrictEgressRule → Type 0
Granted gateways exit_nodes p r =
    Any (λ src. ForSource src r) (peer_sources p.allowed_ips) × Reason gateways exit_nodes p r

family_sound : (prefix : Text) (v6 : Bool) → family prefix ≡ some v6 → OfFamily prefix v6
unfolding family
family_sound prefix v6 h = with_parsed (parse_cidr prefix) refl
  where
    with_parsed : (o : Option Cidr) → parse_cidr prefix ≡ o → OfFamily prefix v6
    with_parsed none e = cc (e, h)
    with_parsed (some c) e = (c, e, ground (arith, e, h))

eq_bool_sound : (f v6 : Bool) → eq_bool f v6 ≡ true → f ≡ v6
eq_bool_sound true v6 h = ground (arith, h)
eq_bool_sound false v6 h = ground (arith, h)

-- The rules that stand under the test for the family of a prefix.
of_family :
    (P : StrictEgressRule → Type 0) (prefix : Text) (v6 : Bool) (rules : List StrictEgressRule)
    (o : Option Bool)
    → family prefix ≡ o
    → (OfFamily prefix v6 → All P rules)
    → All P (elim o [ none ↦ [] | some f ↦ if eq_bool f v6 then rules else [] ])
of_family P prefix v6 rules none e h = tt
of_family P prefix v6 rules (some f) e h = elim (Bool-cases (eq_bool f v6)) [
  | inl same ↦ simp same (h (family_sound prefix v6 (e ∙ ap some (eq_bool_sound f v6 same))))
  | inr other ↦ simp other tt
]

-- What all the rules of one source and family share.
abbrev Head : Bool → Text → StrictEgressRule → Type 0
Head v6 src r = (r.is_v6 ≡ v6) × (r.source ≡ src)

-- The rule allows, on wg0, one of the routes `rs`.
abbrev OnWg : Bool → Text → List Text → StrictEgressRule → Type 0
OnWg v6 src rs r =
    Head v6 src r
    × (r.action ≡ allow)
    × (r.out_dev ≡ wg_device)
    × OfFamily r.dest r.is_v6
    × Any (λ route. r.dest ≡ trim_space route) rs

exit_route_rule-OnWg :
    (v6 : Bool) (src route : Text) (rs : List Text)
    → All (OnWg v6 src (route ∷ rs)) (exit_route_rule v6 src route)
unfolding exit_route_rule
exit_route_rule-OnWg v6 src route rs = elim (Bool-cases (is_empty (trim_space route))) [
  | inl blank ↦ simp blank tt
  | inr text ↦ simp text (
      of_family (OnWg v6 src (route ∷ rs)) (trim_space route) v6 _ (family (trim_space route)) refl
        (λ f. (((refl, refl), refl, refl, f, inl refl), tt)))
]

exit_route_rules-OnWg :
    (v6 : Bool) (src : Text) (rs : List Text) → All (OnWg v6 src rs) (exit_route_rules v6 src rs)
unfolding exit_route_rules
exit_route_rules-OnWg v6 src [] = tt
exit_route_rules-OnWg v6 src (r ∷ rs) =
    All-append (OnWg v6 src (r ∷ rs)) (exit_route_rule v6 src r) _
      (exit_route_rule-OnWg v6 src r rs)
      (All-map (OnWg v6 src rs) (OnWg v6 src (r ∷ rs)) _
        (λ x (hd, al, wg, f, m). (hd, al, wg, f, inr m)) (exit_route_rules-OnWg v6 src rs))

-- The rule allows what the exit node that was looked up routes.
abbrev ByExitNode : Bool → Text → Option Peer → StrictEgressRule → Type 0
ByExitNode v6 src o r = Head v6 src r × ((x : Peer) × (o ≡ some x) × OfExitNode x r)

through_exit_node-ByExitNode :
    (v6 : Bool) (src : Text) (o : Option Peer)
    → All (ByExitNode v6 src o) (through_exit_node v6 src o)
unfolding through_exit_node
through_exit_node-ByExitNode v6 src none = tt
through_exit_node-ByExitNode v6 src (some x) = elim (Bool-cases x.exit_node_allow_all) [
  | inl all ↦ simp all (((refl, refl), (x, refl, (refl, refl, inl (all, refl)))), tt)
  | inr routes ↦ simp routes (
      All-map (OnWg v6 src x.exit_node_routes) (ByExitNode v6 src (some x)) _
        (λ r (hd, al, wg, f, m). (hd, (x, refl, (al, wg, inr (f, m)))))
        (exit_route_rules-OnWg v6 src x.exit_node_routes))
]

exit_node_rules-ByExitNode :
    (exit_nodes : List Peer) (p : Peer) (v6 : Bool) (src : Text)
    → All
        (ByExitNode v6 src (find_peer_by_id exit_nodes p.exit_node_id))
        (exit_node_rules exit_nodes p v6 src)
unfolding exit_node_rules
exit_node_rules-ByExitNode exit_nodes p v6 src = elim (Bool-cases (is_empty p.exit_node_id)) [
  | inl e ↦ simp e tt
  | inr e ↦ simp e (through_exit_node-ByExitNode v6 src (find_peer_by_id exit_nodes p.exit_node_id))
]

-- The rule of one policy route.
abbrev RouteOf : List GatewayNet → Bool → Text → Text → Text → StrictEgressRule → Type 0
RouteOf gateways v6 src subnet gw r =
    Head v6 src r
    × (r.action ≡ allow)
    × OfFamily r.dest r.is_v6
    × (r.dest ≡ subnet)
    × (resolve_gateway gw gateways ≡ device r.out_dev)

routed_rule-RouteOf :
    (gateways : List GatewayNet) (v6 : Bool) (src subnet gw : Text)
    → All (RouteOf gateways v6 src subnet gw) (routed_rule gateways v6 src subnet gw)
unfolding routed_rule
routed_rule-RouteOf gateways v6 src subnet gw =
    of_family (RouteOf gateways v6 src subnet gw) subnet v6 _ (family subnet) refl
      (λ f. resolved (resolve_gateway gw gateways) refl f)
  where
    resolved :
        (a : Resolved)
        → resolve_gateway gw gateways ≡ a
        → OfFamily subnet v6
        → All (RouteOf gateways v6 src subnet gw) (elim a [
          | failed e ↦ []
          | device dev ↦ if is_empty dev then [] else allow_rule v6 src subnet dev ∷ []
        ])
    resolved (failed e) q f = tt
    resolved (device dev) q f = elim (Bool-cases (is_empty dev)) [
      | inl blank ↦ simp blank tt
      | inr named ↦ simp named (((refl, refl), refl, f, refl, q), tt)
    ]

-- A rule of the peer's policy routes `rs`, for one source.
abbrev RoutedFor : List GatewayNet → Bool → Text → List Text → StrictEgressRule → Type 0
RoutedFor gateways v6 src rs r = Head v6 src r × FromRoutes gateways rs r

policy_rule-RoutedFor :
    (gateways : List GatewayNet) (v6 : Bool) (src route : Text) (rs : List Text)
    (o : Option (Text × Text))
    → split_via route ≡ o
    → All (RoutedFor gateways v6 src (route ∷ rs)) (policy_rule gateways v6 src o)
unfolding policy_rule
policy_rule-RoutedFor gateways v6 src route rs none e = tt
policy_rule-RoutedFor gateways v6 src route rs (some (subnet, gw)) e =
    All-map (RouteOf gateways v6 src (trim_space subnet) (trim_space gw))
      (RoutedFor gateways v6 src (route ∷ rs)) _
      (λ r (hd, al, f, d, g). (hd, (al, f, inl (subnet, gw, e, d, g))))
      (routed_rule-RouteOf gateways v6 src (trim_space subnet) (trim_space gw))

policy_rules-RoutedFor :
    (gateways : List GatewayNet) (v6 : Bool) (src : Text) (rs : List Text)
    → All (RoutedFor gateways v6 src rs) (policy_rules gateways v6 src rs)
unfolding policy_rules
policy_rules-RoutedFor gateways v6 src [] = tt
policy_rules-RoutedFor gateways v6 src (r ∷ rs) =
    All-append (RoutedFor gateways v6 src (r ∷ rs)) (policy_rule gateways v6 src (split_via r)) _
      (policy_rule-RoutedFor gateways v6 src r rs (split_via r) refl)
      (All-map (RoutedFor gateways v6 src rs) (RoutedFor gateways v6 src (r ∷ rs)) _
        (λ x (hd, (al, f, m)). (hd, (al, f, inr m))) (policy_rules-RoutedFor gateways v6 src rs))

module _ (gateways : List GatewayNet) (exit_nodes : List Peer) where
  -- The rule is for `src`, for one of the reasons of the peer.
  abbrev GrantedFor : Peer → Text → StrictEgressRule → Type 0
  GrantedFor p src r = ForSource src r × Reason gateways exit_nodes p r

  source_rules-GrantedFor :
      (p : Peer) (s : Text) → All (GrantedFor p s) (source_rules gateways exit_nodes p s)
  unfolding source_rules terminal
  source_rules-GrantedFor p s =
      All-append (GrantedFor p s) (exit_node_rules exit_nodes p (source_is_v6 s) s) _
        (All-map _ (GrantedFor p s) _ (λ r ((v6, src), by). ((src, v6), inr (inl by)))
          (exit_node_rules-ByExitNode exit_nodes p (source_is_v6 s) s))
        (All-append (GrantedFor p s) (policy_rules gateways (source_is_v6 s) s p.policy_routes) _
          (All-map (RoutedFor gateways (source_is_v6 s) s p.policy_routes) (GrantedFor p s) _
            (λ r ((v6, src), by). ((src, v6), inr (inr by)))
            (policy_rules-RoutedFor gateways (source_is_v6 s) s p.policy_routes))
          (((refl, refl), inl refl), tt))

  -- The rule is for one of the sources `ss`.
  abbrev Among : Peer → List Text → StrictEgressRule → Type 0
  Among p ss r = Any (λ src. ForSource src r) ss × Reason gateways exit_nodes p r

  sources_rules-Among :
      (p : Peer) (ss : List Text) → All (Among p ss) (sources_rules gateways exit_nodes p ss)
  unfolding sources_rules
  sources_rules-Among p [] = tt
  sources_rules-Among p (s ∷ ss) =
      All-append (Among p (s ∷ ss)) (source_rules gateways exit_nodes p s) _
        (All-map (GrantedFor p s) (Among p (s ∷ ss)) _ (λ r h. (inl h.0, h.1))
          (source_rules-GrantedFor p s))
        (All-map (Among p ss) (Among p (s ∷ ss)) _ (λ r h. (inr h.0, h.1))
          (sources_rules-Among p ss))

  abbrev pub ByPeer : Peer → StrictEgressRule → Type 0
  ByPeer p r =
      (p.enabled ≡ true) × (p.strict_policy_routing ≡ true) × Granted gateways exit_nodes p r

  -- The rule is granted by an enabled strict peer of the list.
  abbrev pub GrantedBy : List Peer → StrictEgressRule → Type 0
  GrantedBy ps r = Any (λ p. ByPeer p r) ps

  peer_egress-ByPeer : (p : Peer) → All (ByPeer p) (peer_egress gateways exit_nodes p)
  unfolding peer_egress
  peer_egress-ByPeer p = elim (Bool-cases p.enabled) [
    | inr off ↦ simp off tt
    | inl on ↦ elim (Bool-cases p.strict_policy_routing) [
      | inr lax ↦ simp (on, lax) tt
      | inl strict ↦
          simp (on, strict)
            (All-map (Granted gateways exit_nodes p) (ByPeer p) _ (λ r h. (on, strict, h))
              (sources_rules-Among p (peer_sources p.allowed_ips)))
    ]
  ]

  peers_rules-GrantedBy : (ps : List Peer) → All (GrantedBy ps) (peers_rules gateways exit_nodes ps)
  unfolding peers_rules
  peers_rules-GrantedBy [] = tt
  peers_rules-GrantedBy (p ∷ ps) =
      All-append (GrantedBy (p ∷ ps)) (peer_egress gateways exit_nodes p) _
        (All-map (ByPeer p) (GrantedBy (p ∷ ps)) _ (λ r h. inl h) (peer_egress-ByPeer p))
        (All-map (GrantedBy ps) (GrantedBy (p ∷ ps)) _ (λ r h. inr h) (peers_rules-GrantedBy ps))

-- Every rule of the strict chains is for a source of an enabled strict peer, in the chain of the source's
-- family, and rejects, or allows on wg0 all of the family or a route of it that the peer's exit node
-- routes, or allows the destination of one of the peer's policy routes, of the family, on the device
-- that the route's gateway resolves to.
pub strict_egress_rules-Granted :
    (cfg : AppConfig) (gateways : List GatewayNet) (exit_nodes : List Peer)
    → All (GrantedBy gateways exit_nodes cfg.peers) (strict_egress_rules cfg gateways exit_nodes)
unfolding strict_egress_rules
strict_egress_rules-Granted cfg gateways exit_nodes =
    peers_rules-GrantedBy gateways exit_nodes cfg.peers
