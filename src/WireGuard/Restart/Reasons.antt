-- ===== src/WireGuard/Restart/Reasons.antt =====
-- What `ServerRestartReason` overlooks is what `wg syncconf` applies.
use wg_busy.Prelude.{
  ◌≡◌, ◌↔◌, refl, true, List, [], ◌∷◌, none, Text, text_eq, text_eq_iff, arith, flatten_nil,
}
use wg_busy.Models.{ServerConfig}
use wg_busy.WireGuard.Lines.{hook_lines}
use wg_busy.WireGuard.Render.{quick_settings, interface_section}
use wg_busy.WireGuard.Restart.{
  texts_equal, named, same_hook, changed_fields, reason_for, server_restart_reason,
}

texts_equal_iff : (xs ys : List Text) → (texts_equal xs ys ≡ true) ↔ (xs ≡ ys)
unfolding texts_equal
texts_equal_iff [] [] = ground arith
texts_equal_iff [] (y ∷ ys) = ground arith
texts_equal_iff (x ∷ xs) [] = ground arith
texts_equal_iff (x ∷ xs) (y ∷ ys) = ground (arith, text_eq_iff x y, texts_equal_iff xs ys)

-- The fields that only wg-quick applies agree, the hooks line by line.
abbrev pub SameQuickFields : ServerConfig → ServerConfig → Type 0
SameQuickFields s t =
    (s.address ≡ t.address)
    × (s.dns ≡ t.dns)
    × (s.mtu ≡ t.mtu)
    × (s.table ≡ t.table)
    × (s.fw_mark ≡ t.fw_mark)
    × (hook_lines s.pre_up ≡ hook_lines t.pre_up)
    × (hook_lines s.post_up ≡ hook_lines t.post_up)
    × (hook_lines s.pre_down ≡ hook_lines t.pre_down)
    × (hook_lines s.post_down ≡ hook_lines t.post_down)

named_text : (a b name : Text) → named (text_eq a b) name ≡ [] → a ≡ b
named_text a b name h = ground (arith, text_eq_iff a b)

named_hook : (a b name : Text) → named (same_hook a b) name ≡ [] → hook_lines a ≡ hook_lines b
named_hook a b name h = ground (arith, texts_equal_iff (hook_lines a) (hook_lines b))

reason_absent : (fs : List Text) → reason_for fs ≡ none → fs ≡ []
unfolding reason_for
reason_absent [] h = refl
reason_absent (f ∷ fs) h = cc

pub no_reason_fields : (s t : ServerConfig) → server_restart_reason s t ≡ none → SameQuickFields s t
unfolding server_restart_reason changed_fields
no_reason_fields s t h =
    let p = (flatten_nil _).0 (reason_absent _ h) in
    (
      named_text s.address t.address _ p.0,
      named_text s.dns t.dns _ p.1.0,
      ground (arith, p.1.1.0),
      named_text s.table t.table _ p.1.1.1.0,
      named_text s.fw_mark t.fw_mark _ p.1.1.1.1.0,
      named_hook s.pre_up t.pre_up _ p.1.1.1.1.1.0,
      named_hook s.post_up t.post_up _ p.1.1.1.1.1.1.0,
      named_hook s.pre_down t.pre_down _ p.1.1.1.1.1.1.1.0,
      named_hook s.post_down t.post_down _ p.1.1.1.1.1.1.1.1.0,
    )

-- Where no restart is asked for, the interface section of wg0.conf, rendered with the same generated
-- PostUp and PostDown commands, is the same text as before except for the private key and the port,
-- which `wg syncconf` applies.
pub server_restart_reason_rendered :
    (previous next : ServerConfig) (post_up post_down : List Text)
    → server_restart_reason previous next ≡ none
    → interface_section
        (record next { private_key = previous.private_key; listen_port = previous.listen_port })
        post_up
        post_down
      ≡ interface_section previous post_up post_down
unfolding interface_section quick_settings
server_restart_reason_rendered previous next post_up post_down h =
    let f = no_reason_fields previous next h in cc (f.0, f.1, f.2, f.3, f.4, f.5, f.6, f.7, f.8)
