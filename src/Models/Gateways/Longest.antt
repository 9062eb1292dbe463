-- ===== src/Models/Gateways/Longest.antt =====
-- `ResolveGateway` chooses by the longest prefix, and refuses a tie between devices.
use mathlib.Core.Bool.{false≢true}
use wg_busy.Prelude.{
  All-map, sym, ◌∙◌, subst, ℕ, ◌≤◌, ◌≡◌, ◌≢◌, refl, true, false, ◌⊎◌, inl, inr, List, [], ◌∷◌,
  Option, none, some, Text, trim_space, text_eq_iff, All, Any, arith, Bool-cases, Option-cases,
}
use wg_busy.Net.{Ip}
use wg_busy.Net.Parse.{parse_ip}
use wg_busy.Models.{GatewayNet}
use wg_busy.Models.Gateways.{
  Best, holding, visit, scan, start, verdict, resolve_gateway, Resolved, device, failed, unresolved,
  ambiguous, invalid,
}

-- The order of the best lengths; none is the least.
abbrev AtMost : Option ℕ → Option ℕ → Type 0
AtMost none b = Unit
AtMost (some a) none = ⊥
AtMost (some a) (some b) = a ≤ b

AtMost_trans : (a b c : Option ℕ) → AtMost a b → AtMost b c → AtMost a c
AtMost_trans none b c h k = tt
AtMost_trans (some a) none c h k = absurd h
AtMost_trans (some a) (some b) none h k = absurd k
AtMost_trans (some a) (some b) (some c) h k = omega arith

AtMost_refl : (a : Option ℕ) → AtMost a a
AtMost_refl none = tt
AtMost_refl (some a) = omega arith

AtMost_antisymm : (a b : Option ℕ) → AtMost a b → AtMost b a → a ≡ b
AtMost_antisymm none none h k = refl
AtMost_antisymm none (some b) h k = absurd k
AtMost_antisymm (some a) none h k = absurd h
AtMost_antisymm (some a) (some b) h k = ground arith

visit_bound :
    (o : Option ℕ) (d : Text) (b : Best)
    → AtMost b.best_prefix_len (visit o d b).best_prefix_len
      × AtMost o (visit o d b).best_prefix_len
unfolding visit
visit_bound none d b = (AtMost_refl b.best_prefix_len, tt)
visit_bound (some ones) d b = ground arith

-- What a round leaves when the best length stays and no tie is open.
visit_same :
    (o : Option ℕ) (d : Text) (b : Best)
    → (visit o d b).best_prefix_len ≡ b.best_prefix_len
    → (visit o d b).is_ambiguous ≡ false
    → ((visit o d b).matched_device ≡ b.matched_device) × (b.is_ambiguous ≡ false)
unfolding visit
visit_same none d b h k = (refl, k)
visit_same (some ones) d b h k = ground arith

visit_at :
    (o : Option ℕ) (d : Text) (b : Best)
    → o ≢ none
    → (visit o d b).best_prefix_len ≡ o
    → (visit o d b).is_ambiguous ≡ false
    → d ≡ (visit o d b).matched_device
unfolding visit
visit_at none d b some_o h a = absurd (some_o refl)
visit_at (some k) d b some_o h a = ground (arith, text_eq_iff d b.matched_device)

-- The entry has the best length, on the chosen device, or on another one.
abbrev SameAt : Best → Option ℕ → Text → Type 0
SameAt r o d = (o ≢ none) × (r.best_prefix_len ≡ o) × (d ≡ r.matched_device)

abbrev OtherAt : Best → Option ℕ → Text → Type 0
OtherAt r o d = (o ≢ none) × (r.best_prefix_len ≡ o) × (d ≢ r.matched_device)

abbrev Kept : Best → Best → Type 0
Kept r b = (r.best_prefix_len ≡ b.best_prefix_len) × (r.matched_device ≡ b.matched_device)

visit_tie :
    (o : Option ℕ) (d : Text) (b : Best)
    → (visit o d b).is_ambiguous ≡ true
    → ((b.is_ambiguous ≡ true) × Kept (visit o d b) b) ⊎ OtherAt (visit o d b) o d
unfolding visit
visit_tie none d b h = inl (h, (refl, refl))
visit_tie (some ones) d b h = ground (arith, text_eq_iff d b.matched_device)

visit_origin :
    (o : Option ℕ) (d : Text) (b : Best) → Kept (visit o d b) b ⊎ SameAt (visit o d b) o d
unfolding visit
visit_origin none d b = inl (refl, refl)
visit_origin (some ones) d b = ground arith

module _ (ip : Ip) where
  scan_mono :
      (ns : List GatewayNet) (b : Best) → AtMost b.best_prefix_len (scan ip ns b).best_prefix_len
  unfolding scan
  scan_mono [] b = AtMost_refl b.best_prefix_len
  scan_mono (n ∷ ns) b =
      let b' : Best = visit (holding ip n) n.device b in
      AtMost_trans b.best_prefix_len b'.best_prefix_len _ (visit_bound (holding ip n) n.device b).0
        (scan_mono ns b')

  scan_bound :
      (ns : List GatewayNet) (b : Best)
      → All (λ n. AtMost (holding ip n) (scan ip ns b).best_prefix_len) ns
  unfolding scan
  scan_bound [] b = tt
  scan_bound (n ∷ ns) b =
      let b' : Best = visit (holding ip n) n.device b in
      (
        AtMost_trans (holding ip n) b'.best_prefix_len _ (visit_bound (holding ip n) n.device b).1
            (scan_mono ns b'),
        scan_bound ns b',
      )

  -- If the best length stays to the end, it stays in the first round too.
  first_round :
      (n : GatewayNet) (ns : List GatewayNet) (b : Best)
      → (scan ip (n ∷ ns) b).best_prefix_len ≡ b.best_prefix_len
      → (visit (holding ip n) n.device b).best_prefix_len ≡ b.best_prefix_len
  unfolding scan
  first_round n ns b h =
      let b' : Best = visit (holding ip n) n.device b in
      AtMost_antisymm b'.best_prefix_len b.best_prefix_len
        (subst (AtMost b'.best_prefix_len) h (scan_mono ns b'))
        (visit_bound (holding ip n) n.device b).0

  scan_same :
      (ns : List GatewayNet) (b : Best)
      → (scan ip ns b).best_prefix_len ≡ b.best_prefix_len
      → (scan ip ns b).is_ambiguous ≡ false
      → ((scan ip ns b).matched_device ≡ b.matched_device) × (b.is_ambiguous ≡ false)
  unfolding scan
  scan_same [] b h k = (refl, k)
  scan_same (n ∷ ns) b h k =
      let same : (visit (holding ip n) n.device b).best_prefix_len ≡ b.best_prefix_len =
        first_round n ns b h in
      let rest = scan_same ns (visit (holding ip n) n.device b) (h ∙ sym same) k in
      let first = visit_same (holding ip n) n.device b same rest.1 in (rest.0 ∙ first.0, first.1)

  first_clear :
      (n : GatewayNet) (ns : List GatewayNet) (b : Best)
      → (scan ip (n ∷ ns) b).is_ambiguous ≡ false
      → holding ip n ≢ none
      → (scan ip (n ∷ ns) b).best_prefix_len ≡ holding ip n
      → n.device ≡ (scan ip (n ∷ ns) b).matched_device
  unfolding scan
  first_clear n ns b h some_o l =
      let b' : Best = visit (holding ip n) n.device b in
      let top : b'.best_prefix_len ≡ holding ip n =
        AtMost_antisymm b'.best_prefix_len (holding ip n)
          (subst (AtMost b'.best_prefix_len) l (scan_mono ns b'))
          (visit_bound (holding ip n) n.device b).1 in
      let rest = scan_same ns b' (l ∙ sym top) h in
      visit_at (holding ip n) n.device b some_o top rest.1 ∙ sym rest.0

  -- With no tie open at the end, every entry of the best length has the chosen device.
  scan_clear :
      (ns : List GatewayNet) (b : Best)
      → (scan ip ns b).is_ambiguous ≡ false
      → All
          (λ n.
            holding ip n ≢ none
            → (scan ip ns b).best_prefix_len ≡ holding ip n
            → n.device ≡ (scan ip ns b).matched_device)
          ns
  unfolding scan
  scan_clear [] b h = tt
  scan_clear (n ∷ ns) b h =
      (first_clear n ns b h, scan_clear ns (visit (holding ip n) n.device b) h)

  scan_tie :
      (ns : List GatewayNet) (b : Best)
      → (scan ip ns b).is_ambiguous ≡ true
      → ((b.is_ambiguous ≡ true) × Kept (scan ip ns b) b)
        ⊎ Any (λ n. OtherAt (scan ip ns b) (holding ip n) n.device) ns
  unfolding scan
  scan_tie [] b h = inl (h, (refl, refl))
  scan_tie (n ∷ ns) b h =
      ground
        (arith, scan_tie ns (visit (holding ip n) n.device b), visit_tie (holding ip n) n.device b)

  scan_origin :
      (ns : List GatewayNet) (b : Best)
      → Kept (scan ip ns b) b ⊎ Any (λ n. SameAt (scan ip ns b) (holding ip n) n.device) ns
  unfolding scan
  scan_origin [] b = inl (refl, refl)
  scan_origin (n ∷ ns) b = ground (
    arith,
    scan_origin ns (visit (holding ip n) n.device b),
    visit_origin (holding ip n) n.device b,
  )

-- What each answer says of the entries whose prefix holds the gateway address `ip`: the chosen
-- device is that of an entry with the longest prefix, and of every entry with that length; an
-- ambiguous gateway has the longest prefix on two devices; an unresolved one is in no prefix.
abbrev pub Answers : Ip → List GatewayNet → Resolved → Type 0
Answers ip ns (device d) =
    (k : ℕ) × Any (λ n. (holding ip n ≡ some k) × (n.device ≡ d)) ns
    × All (λ n. AtMost (holding ip n) (some k)) ns
    × All (λ n. holding ip n ≡ some k → n.device ≡ d) ns
Answers ip ns (failed ambiguous) =
    (k : ℕ) × (d : Text) × Any (λ n. (holding ip n ≡ some k) × (n.device ≡ d)) ns
    × Any (λ n. (holding ip n ≡ some k) × (n.device ≢ d)) ns
    × All (λ n. AtMost (holding ip n) (some k)) ns
Answers ip ns (failed unresolved) = All (λ n. holding ip n ≡ none) ns
Answers ip ns (failed invalid) = ⊥

Any-map {ℓ} :
    {A : Type ℓ} (P Q : A → Type 0) (xs : List A) → ((x : A) → P x → Q x) → Any P xs → Any Q xs
Any-map P Q [] f h = h
Any-map P Q (x ∷ xs) f (inl h) = inl (f x h)
Any-map P Q (x ∷ xs) f (inr h) = inr (Any-map P Q xs f h)

Any-none {ℓ} : {A : Type ℓ} (P : A → Type 0) (xs : List A) → ((x : A) → ¬ P x) → ¬ Any P xs
Any-none P [] f h = h
Any-none P (x ∷ xs) f (inl h) = f x h
Any-none P (x ∷ xs) f (inr h) = Any-none P xs f h

AtMost_none : (o : Option ℕ) → AtMost o none → o ≡ none
AtMost_none none h = refl
AtMost_none (some a) h = absurd h

module _ (ip : Ip) (ns : List GatewayNet) (r : Best) (e : scan ip ns start ≡ r) where
  bound : All (λ n. AtMost (holding ip n) r.best_prefix_len) ns
  bound =
      subst (λ x. All (λ n. AtMost (holding ip n) x.best_prefix_len) ns) e (scan_bound ip ns start)

  Answers-unresolved : r.best_prefix_len ≡ none → All (λ n. holding ip n ≡ none) ns
  Answers-unresolved l =
      All-map (λ n. AtMost (holding ip n) r.best_prefix_len) (λ n. holding ip n ≡ none) ns
        (λ n h. AtMost_none (holding ip n) (subst (AtMost (holding ip n)) l h)) bound

  -- The chosen entry.
  origin :
      (k : ℕ)
      → r.best_prefix_len ≡ some k
      → Any (λ n. (holding ip n ≡ some k) × (n.device ≡ r.matched_device)) ns
  origin k l =
      elim (subst (λ x. Kept x start ⊎ Any (λ n. SameAt x (holding ip n) n.device) ns) e
        (scan_origin ip ns start)) [
          | inl kept ↦ cc (l, kept.0)
          | inr at ↦
              Any-map (λ n. SameAt r (holding ip n) n.device) _ ns (λ n h. (sym h.1 ∙ l, h.2)) at
        ]

  longest : (k : ℕ) → r.best_prefix_len ≡ some k → All (λ n. AtMost (holding ip n) (some k)) ns
  longest k l = subst (λ x. All (λ n. AtMost (holding ip n) x) ns) l bound

  clear_with :
      r.is_ambiguous ≡ false
      → All
          (λ n.
            holding ip n ≢ none → r.best_prefix_len ≡ holding ip n → n.device ≡ r.matched_device)
          ns
  clear_with a =
      subst
        (λ x.
          All
            (λ n.
              holding ip n ≢ none → x.best_prefix_len ≡ holding ip n → n.device ≡ x.matched_device)
            ns)
        e (scan_clear ip ns start (subst (λ x. x.is_ambiguous ≡ false) (sym e) a))

  -- Two devices share the best length.
  tie_with : r.is_ambiguous ≡ true → Any (λ n. OtherAt r (holding ip n) n.device) ns
  tie_with a = elim (scan_tie ip ns start (subst (λ x. x.is_ambiguous ≡ true) (sym e) a)) [
    | inl kept ↦ absurd (false≢true kept.0)
    | inr other ↦ subst (λ x. Any (λ n. OtherAt x (holding ip n) n.device) ns) e other
  ]

  Answers-device :
      (k : ℕ)
      → r.best_prefix_len ≡ some k
      → r.is_ambiguous ≡ false
      → Answers ip ns (device r.matched_device)
  Answers-device k l a = (
    k,
    origin k l,
    longest k l,
    All-map
        (λ n. holding ip n ≢ none → r.best_prefix_len ≡ holding ip n → n.device ≡ r.matched_device)
        (λ n. holding ip n ≡ some k → n.device ≡ r.matched_device) ns
        (λ n h at. h (λ absent. cc) (l ∙ sym at)) (clear_with a),
  )

  Answers-ambiguous :
      (k : ℕ)
      → r.best_prefix_len ≡ some k
      → r.is_ambiguous ≡ true
      → Answers ip ns (failed ambiguous)
  Answers-ambiguous k l a = (
    k,
    r.matched_device,
    origin k l,
    Any-map (λ n. OtherAt r (holding ip n) n.device) _ ns (λ n h. (sym h.1 ∙ l, h.2)) (tie_with a),
    longest k l,
  )

  tie_has_length : r.is_ambiguous ≡ true → r.best_prefix_len ≢ none
  tie_has_length a l =
      Any-none (λ n. OtherAt r (holding ip n) n.device) ns (λ n h. h.0 (sym h.1 ∙ l)) (tie_with a)

Answers-verdict :
    (ip : Ip) (ns : List GatewayNet) (r : Best) → scan ip ns start ≡ r → Answers ip ns (verdict r)
unfolding verdict
Answers-verdict ip ns r e = elim (Bool-cases r.is_ambiguous) [
  | inl a ↦ elim (Option-cases r.best_prefix_len) [
    | inl l ↦ absurd (tie_has_length ip ns r e a l)
    | inr (k, l) ↦ simp a (Answers-ambiguous ip ns r e k l a)
  ]
  | inr a ↦ elim (Option-cases r.best_prefix_len) [
    | inl l ↦ simp (a, l) (Answers-unresolved ip ns r e l)
    | inr (k, l) ↦ simp (a, l) (Answers-device ip ns r e k l a)
  ]
]

resolve_parsed :
    (gateway : Text) (nets : List GatewayNet) (ip : Ip)
    → parse_ip (trim_space gateway) ≡ some ip
    → verdict (scan ip nets start) ≡ resolve_gateway gateway nets
unfolding resolve_gateway
resolve_parsed gateway nets ip e = ground arith

-- For a gateway text that parses as an address: if a device is returned, some entry of the longest
-- prefix that holds the address has this device, and so has every entry of that length; if the
-- answer is ambiguous, entries of the longest prefix have two devices; if it is unresolved, no
-- entry's prefix holds the address. The answer is never that the address is invalid.
pub resolve_gateway-Answers :
    (gateway : Text) (nets : List GatewayNet) (ip : Ip)
    → parse_ip (trim_space gateway) ≡ some ip
    → Answers ip nets (resolve_gateway gateway nets)
resolve_gateway-Answers gateway nets ip e =
    subst (Answers ip nets) (resolve_parsed gateway nets ip e) (Answers-verdict ip nets _ refl)
