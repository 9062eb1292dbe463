-- ===== src/Routing/Guards/Covered.antt =====
-- Which sources are guarded while `Reconcile` runs.
use wg_busy.Prelude.{
  Any-append_left, Any-append_right, ◌≡◌, refl, true, ◌⊎◌, inl, inr, List, [], ◌∷◌, ◌++◌, Text, Any,
  has,
}
use wg_busy.Models.{Peer, AppConfig}
use wg_busy.Models.Addresses.{peer_sources}
use wg_busy.Models.Addresses.Distinct.{Among, Distinct, has-first_seen, first_seen-Distinct}
use wg_busy.Routing.Guards.{strict_sources_of, strict_peer_sources, union_sources, affected_sources}

-- An enabled strict peer that the configuration holds, with this source.
abbrev pub StrictSource : AppConfig → Text → Type 0
StrictSource cfg s =
    Any
      (λ p.
        (p.enabled ≡ true)
        × (p.strict_policy_routing ≡ true)
        × Among s (peer_sources p.allowed_ips))
      cfg.peers

strict_sources_cover :
    (ps : List Peer) (s : Text)
    → Any
        (λ p.
          (p.enabled ≡ true)
          × (p.strict_policy_routing ≡ true)
          × Among s (peer_sources p.allowed_ips))
        ps
    → Among s (strict_sources_of ps)
unfolding strict_sources_of
strict_sources_cover [] s h = absurd h
strict_sources_cover (p ∷ ps) s (inl (on, strict, m)) =
    simp (on, strict)
      (Any-append_left (λ t. t ≡ s) (peer_sources p.allowed_ips) (strict_sources_of ps) m)
strict_sources_cover (p ∷ ps) s (inr h) =
    Any-append_right (λ t. t ≡ s) _ (strict_sources_of ps) (strict_sources_cover ps s h)

strict_peer_sources_cover :
    (cfg : AppConfig) (s : Text) → StrictSource cfg s → Among s (strict_peer_sources cfg)
unfolding strict_peer_sources has
strict_peer_sources_cover cfg s h =
    has-first_seen [] (strict_sources_of cfg.peers) s refl (strict_sources_cover cfg.peers s h)

union_sources_cover :
    (a b : List Text) (s : Text) → Among s a ⊎ Among s b → Among s (union_sources a b)
unfolding union_sources has
union_sources_cover a b s (inl h) =
    has-first_seen [] (a ++ b) s refl (Any-append_left (λ t. t ≡ s) a b h)
union_sources_cover a b s (inr h) =
    has-first_seen [] (a ++ b) s refl (Any-append_right (λ t. t ≡ s) a b h)

-- A source of an enabled strict peer of the previous or of the next configuration is among the
-- sources that `Reconcile` guards, and no source is guarded twice.
pub affected_sources_cover :
    (previous next : AppConfig) (s : Text)
    → StrictSource previous s ⊎ StrictSource next s
    → Among s (affected_sources previous next) × Distinct (affected_sources previous next)
unfolding affected_sources union_sources
affected_sources_cover previous next s h = (
  union_sources_cover _ _ s (elim h [
    | inl p ↦ inl (strict_peer_sources_cover previous s p)
    | inr n ↦ inr (strict_peer_sources_cover next s n)
  ]),
  first_seen-Distinct [] _,
)
