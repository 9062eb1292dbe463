-- ===== src/WireGuard/Render/AllowedIps.antt =====
-- The prefixes that a rendered peer section claims, read back from its AllowedIPs, against those that
-- `ValidateConfig` compares.
use wg_busy.Prelude.{
  ◌≡◌, ◌≢◌, refl, sym, ap, ◌∙◌, true, false, not, ◌&&◌, inl, inr, Bool, Bool-cases, List, [], ◌∷◌,
  ◌++◌, append_assoc, append-nil, if◌then◌else◌, Text, codes, split, text_eq, trim_space, All,
  flat_map, subst,
}
use wg_busy.Net.{Cidr}
use wg_busy.Net.Format.{cidr_text}
use wg_busy.Models.{Peer, AppConfig}
use wg_busy.Models.Addresses.{parsed, texts_of}
use wg_busy.Models.Validate.Claims.Apart.{Apart}
use wg_busy.Models.Validate.Config.{validate_config}
use wg_busy.Models.Validate.Config.Accepted.{validate_config_peers}
use wg_busy.Models.Validate.Config.Peers.{claimed_values, effective_allowed_prefixes, prefixes_of}
use wg_busy.WireGuard.Render.Joined.{NoComma, parsed-append, parsed-with_routes}
use wg_busy.WireGuard.Render.{all_traffic, with_routes, exit_allowed_ips, effective_allowed_ips}
use wg_busy.Models.Validate.Peer.{no_routes}

-- The prefixes of the rendered peer section, as they are read back.
pub rendered_prefixes : Peer → List Text
rendered_prefixes p = texts_of cidr_text (parsed (split 44 (effective_allowed_ips p)))

texts_of-append :
    (f : Cidr → Text) (xs ys : List Cidr) → texts_of f (xs ++ ys) ≡ texts_of f xs ++ texts_of f ys
texts_of-append f [] ys = refl
texts_of-append f (x ∷ xs) ys = ap (λ t. f x ∷ t) (texts_of-append f xs ys)

-- Routes that may be written into the list: none has a comma.
abbrev pub PlainRoutes : Peer → Type 0
PlainRoutes p = All NoComma p.exit_node_routes × All NoComma p.advertised_routes

abbrev HeadOf : List Cidr → List Cidr → Type 0
HeadOf xs ys = (rest : List Cidr) × (ys ≡ xs ++ rest)

abbrev exit_text : Bool → Bool → Text → List Text → Text
exit_text exit all cidrs routes =
    if exit
    then (if all then all_traffic else if no_routes routes then cidrs else with_routes cidrs routes)
    else cidrs

parsed_exit :
    (exit all : Bool) (cidrs : Text) (routes : List Text)
    → All NoComma routes
    → (exit && all) ≡ false
    → parsed (split 44 (exit_text exit all cidrs routes))
      ≡ parsed (split 44 cidrs ++ (if exit then routes else []))
parsed_exit false all cidrs routes plain h = ap parsed (sym (append-nil (split 44 cidrs)))
parsed_exit true true cidrs routes plain h = cc
parsed_exit true false cidrs [] plain h = ap parsed (sym (append-nil (split 44 cidrs)))
parsed_exit true false cidrs (r ∷ rs) plain h =
    parsed-with_routes cidrs r rs plain ∙ sym (parsed-append (split 44 cidrs) (r ∷ rs))

abbrev full_text : Text → List Text → Text
full_text base routes =
    if not (no_routes routes) && not (text_eq base all_traffic)
    then with_routes base routes
    else base

parsed_full :
    (base : Text) (routes : List Text)
    → All NoComma routes
    → HeadOf (parsed (split 44 (full_text base routes))) (parsed (split 44 base) ++ parsed routes)
unfolding parsed
parsed_full base [] plain = ([], refl)
parsed_full base (r ∷ rs) plain = elim (Bool-cases (text_eq base all_traffic)) [
  | inl all ↦ simp all (parsed (r ∷ rs), refl)
  | inr other ↦ simp other ([], sym (append-nil _ ∙ parsed-with_routes base r rs plain))
]

exit_all :
    (exit all : Bool) (cidrs : Text) (routes : List Text)
    → (exit && all) ≡ true
    → exit_text exit all cidrs routes ≡ all_traffic
exit_all true true cidrs routes h = refl
exit_all true false cidrs routes h = cc
exit_all false all cidrs routes h = cc

full_all : (routes : List Text) → full_text all_traffic routes ≡ all_traffic
unfolding text_eq
full_all [] = refl
full_all (r ∷ rs) = refl

all_values : List Text
all_values = codes "0.0.0.0/0" ∷ codes "::/0" ∷ []

parsed_all : parsed (split 44 all_traffic) ≡ parsed all_values
unfolding all_values split parsed trim_space
parsed_all = refl

claimed_all :
    (p : Peer) → (p.is_exit_node && p.exit_node_allow_all) ≡ true → claimed_values p ≡ all_values
unfolding claimed_values all_values
claimed_all p h = simp h refl

claimed_other :
    (p : Peer)
    → (p.is_exit_node && p.exit_node_allow_all) ≡ false
    → claimed_values p
      ≡ (split 44 p.allowed_ips ++ (if p.is_exit_node then p.exit_node_routes else []))
        ++ p.advertised_routes
unfolding claimed_values
claimed_other p h = simp h (
    sym (
      append_assoc (split 44 p.allowed_ips) (if p.is_exit_node then p.exit_node_routes else [])
        p.advertised_routes))

effective_full :
    (p : Peer) → effective_allowed_ips p ≡ full_text (exit_allowed_ips p) p.advertised_routes
unfolding effective_allowed_ips
effective_full p = refl

exit_form :
    (p : Peer)
    → exit_allowed_ips p
      ≡ exit_text p.is_exit_node p.exit_node_allow_all p.allowed_ips p.exit_node_routes
unfolding exit_allowed_ips
exit_form p = refl

effective_all :
    (p : Peer)
    → (p.is_exit_node && p.exit_node_allow_all) ≡ true
    → effective_allowed_ips p ≡ all_traffic
effective_all p h =
    effective_full p
    ∙ ap (λ x. full_text x p.advertised_routes)
        (exit_form p
          ∙ exit_all p.is_exit_node p.exit_node_allow_all p.allowed_ips p.exit_node_routes h)
    ∙ full_all p.advertised_routes

-- What is rendered is the head of what is compared.
HeadOf-claimed :
    (p : Peer)
    → PlainRoutes p
    → HeadOf (parsed (split 44 (effective_allowed_ips p))) (parsed (claimed_values p))
HeadOf-claimed p (exits, routes) = elim (Bool-cases (p.is_exit_node && p.exit_node_allow_all)) [
  | inl all ↦ (
    [],
    ap parsed (claimed_all p all)
        ∙ sym (append-nil _ ∙ ap (λ x. parsed (split 44 x)) (effective_all p all) ∙ parsed_all),
  )
  | inr other ↦
      let first =
        parsed_exit p.is_exit_node p.exit_node_allow_all p.allowed_ips p.exit_node_routes exits
          other in
      let second = parsed_full (exit_allowed_ips p) p.advertised_routes routes in
      (
        second.0,
        ap parsed (claimed_other p other)
            ∙ parsed-append _ p.advertised_routes
            ∙ ap (λ x. x ++ parsed p.advertised_routes)
                (sym (ap (λ x. parsed (split 44 x)) (exit_form p) ∙ first))
            ∙ second.1
            ∙ ap (λ x. parsed (split 44 x) ++ second.0) (sym (effective_full p)),
      )
]

-- Every prefix that is rendered is compared.
pub rendered_of : Peer → List Text
unfolding rendered_prefixes
rendered_of p = if p.enabled then rendered_prefixes p else []

rendered_head :
    (p : Peer) → PlainRoutes p → (rest : List Text) × (prefixes_of p ≡ rendered_of p ++ rest)
unfolding rendered_of rendered_prefixes effective_allowed_prefixes
rendered_head p plain =
    let head = HeadOf-claimed p plain in
    elim (Bool-cases p.enabled) [
      | inl on ↦ simp on (
        texts_of cidr_text head.0,
        ap (texts_of cidr_text) head.1 ∙ texts_of-append cidr_text _ head.0,
      )
      | inr off ↦ simp off ([], refl)
    ]

All_part : (P : Text → Type 0) (xs ys zs : List Text) → All P (xs ++ (ys ++ zs)) → All P (xs ++ zs)
All_part P [] [] zs h = h
All_part P [] (y ∷ ys) zs h = All_part P [] ys zs h.1
All_part P (x ∷ xs) ys zs h = (h.0, All_part P xs ys zs h.1)

Apart-part : (xs ys zs : List Text) → Apart (xs ++ (ys ++ zs)) → Apart (xs ++ zs)
Apart-part [] [] zs h = h
Apart-part [] (y ∷ ys) zs h = Apart-part [] ys zs h.1
Apart-part (x ∷ xs) ys zs h = (All_part (λ y. x ≢ y) xs ys zs h.0, Apart-part xs ys zs h.1)

rendered_Apart :
    (front : List Text) (ps : List Peer)
    → All PlainRoutes ps
    → Apart (front ++ flat_map prefixes_of ps)
    → Apart (front ++ flat_map rendered_of ps)
rendered_Apart front [] plain h = h
rendered_Apart front (p ∷ ps) plain h =
    let (rest, e) = rendered_head p plain.0 in
    let more = flat_map prefixes_of ps in
    let whole : Apart ((front ++ rendered_of p) ++ (rest ++ more)) =
      subst Apart
        (ap (λ x. front ++ (x ++ more)) e
          ∙ ap (λ x. front ++ x) (append_assoc (rendered_of p) rest more)
          ∙ sym (append_assoc front (rendered_of p) (rest ++ more)))
        h in
    subst Apart (append_assoc front (rendered_of p) (flat_map rendered_of ps)) (
      rendered_Apart (front ++ rendered_of p) ps plain.1
        (Apart-part (front ++ rendered_of p) rest more whole))

-- In the wg0.conf of an accepted configuration whose exit and advertised routes hold no comma, no
-- prefix stands twice: not in the AllowedIPs of two peer sections, and not twice in one.
pub rendered_prefixes-Apart :
    (cfg : AppConfig)
    → validate_config cfg ≡ []
    → All PlainRoutes cfg.peers
    → Apart (flat_map rendered_of cfg.peers)
rendered_prefixes-Apart cfg h plain =
    rendered_Apart [] cfg.peers plain (validate_config_peers cfg h).3
