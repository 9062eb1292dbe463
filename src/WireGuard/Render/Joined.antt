-- ===== src/WireGuard/Render/Joined.antt =====
-- Lists of prefixes that are joined with commas are read back as they were.
use wg_busy.Prelude.{
  ℕ, ◌≡◌, ◌≢◌, refl, sym, ap, ◌∙◌, false, List, [], ◌∷◌, ◌++◌, append_assoc, if◌then◌else◌, Text,
  codes, join, split, contains_byte, trim_space, ◌==◌, arith, All,
}
use wg_busy.Models.Addresses.{parsed}
use wg_busy.WireGuard.Render.{with_routes}

abbrev pub NoComma : Text → Type 0
NoComma s = contains_byte 44 s ≡ false

add_byte : ℕ → List Text → List Text
add_byte c [] = (c ∷ []) ∷ []
add_byte c (p ∷ ps) = if c == 44 then [] ∷ p ∷ ps else (c ∷ p) ∷ ps

split_step : (c : ℕ) (s : Text) → split 44 (c ∷ s) ≡ add_byte c (split 44 s)
unfolding split add_byte
split_step c s = refl

add_byte_ne_nil : (c : ℕ) (ps : List Text) → add_byte c ps ≢ []
unfolding add_byte
add_byte_ne_nil c [] h = cc
add_byte_ne_nil c (p ∷ ps) h = ground arith

split_ne_nil : (s : Text) → split 44 s ≢ []
unfolding split add_byte
split_ne_nil [] h = cc
split_ne_nil (c ∷ s) h = add_byte_ne_nil c (split 44 s) h

add_byte-append :
    (c : ℕ) (ps qs : List Text) → ps ≢ [] → add_byte c (ps ++ qs) ≡ add_byte c ps ++ qs
unfolding add_byte
add_byte-append c [] qs n = absurd (n refl)
add_byte-append c (p ∷ ps) qs n = ground arith

add_byte_comma : (ps : List Text) → ps ≢ [] → add_byte 44 ps ≡ [] ∷ ps
unfolding add_byte
add_byte_comma [] n = absurd (n refl)
add_byte_comma (p ∷ ps) n = refl

split-append : (s t : Text) → split 44 (s ++ 44 ∷ t) ≡ split 44 s ++ split 44 t
unfolding split
split-append [] t = split_step 44 t ∙ add_byte_comma (split 44 t) (split_ne_nil t)
split-append (c ∷ s) t =
    split_step c (s ++ 44 ∷ t)
    ∙ ap (add_byte c) (split-append s t)
    ∙ add_byte-append c (split 44 s) (split 44 t) (split_ne_nil s)
    ∙ ap (λ x. x ++ split 44 t) (sym (split_step c s))

split_whole : (s : Text) → NoComma s → split 44 s ≡ s ∷ []
unfolding split contains_byte
split_whole [] h = refl
split_whole (c ∷ s) h = ground (arith, split_whole s)

pub parsed-append : (xs ys : List Text) → parsed (xs ++ ys) ≡ parsed xs ++ parsed ys
unfolding parsed
parsed-append [] ys = refl
parsed-append (x ∷ xs) ys = ground (arith, parsed-append xs ys)

-- A space in front of an entry is passed over.
parsed_space : (r : Text) (xs : List Text) → parsed ((32 ∷ r) ∷ xs) ≡ parsed (r ∷ xs)
unfolding parsed trim_space
parsed_space r xs = refl

space_in_front : (r : Text) → NoComma r → NoComma (32 ∷ r)
unfolding contains_byte
space_in_front r h = h

join_two :
    (r q : Text) (rs : List Text)
    → 32 ∷ join (codes ", ") (r ∷ q ∷ rs) ≡ (32 ∷ r) ++ 44 ∷ 32 ∷ join (codes ", ") (q ∷ rs)
unfolding join
join_two r q rs = ap (λ x. 32 ∷ x) (append_assoc r (codes ", ") (join (codes ", ") (q ∷ rs)))

-- Routes that are joined with commas are read back.
parsed_routes :
    (r : Text) (rs : List Text)
    → All NoComma (r ∷ rs)
    → parsed (split 44 (32 ∷ join (codes ", ") (r ∷ rs))) ≡ parsed (r ∷ rs)
unfolding join
parsed_routes r [] (h, u) =
    ap parsed (split_whole (32 ∷ r) (space_in_front r h)) ∙ parsed_space r []
parsed_routes r (q ∷ rs) (h, more) =
    let tail : Text = 32 ∷ join (codes ", ") (q ∷ rs) in
    ap (λ x. parsed (split 44 x)) (join_two r q rs)
    ∙ ap parsed (split-append (32 ∷ r) tail)
    ∙ ap (λ x. parsed (x ++ split 44 tail)) (split_whole (32 ∷ r) (space_in_front r h))
    ∙ parsed_space r (split 44 tail)
    ∙ parsed-append (r ∷ []) (split 44 tail)
    ∙ ap (λ x. parsed (r ∷ []) ++ x) (parsed_routes q rs more)
    ∙ sym (parsed-append (r ∷ []) (q ∷ rs))

-- A list of addresses with routes behind it.
pub parsed-with_routes :
    (cidrs r : Text) (rs : List Text)
    → All NoComma (r ∷ rs)
    → parsed (split 44 (with_routes cidrs (r ∷ rs))) ≡ parsed (split 44 cidrs) ++ parsed (r ∷ rs)
unfolding with_routes
parsed-with_routes cidrs r rs h =
    ap parsed (split-append cidrs (32 ∷ join (codes ", ") (r ∷ rs)))
    ∙ parsed-append (split 44 cidrs) _
    ∙ ap (λ x. parsed (split 44 cidrs) ++ x) (parsed_routes r rs h)
