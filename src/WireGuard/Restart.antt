-- ===== src/WireGuard/Restart.antt =====
-- wireguard.go: `ServerRestartReason`.
pub mod Reasons
use wg_busy.Prelude.{
  ℕ, Bool, true, false, not, ◌&&◌, List, [], ◌∷◌, ◌++◌, Option, none, some, if◌then◌else◌, Text,
  codes, concat, join, text_eq, ◌==◌, flatten,
}
use wg_busy.Models.{ServerConfig}
use wg_busy.WireGuard.{err_restart_needed}
use wg_busy.WireGuard.Lines.{hook_lines}

-- `slices.Equal` of two lists of texts.
unfoldable pub texts_equal : List Text → List Text → Bool
texts_equal [] [] = true
texts_equal [] (y ∷ ys) = false
texts_equal (x ∷ xs) [] = false
texts_equal (x ∷ xs) (y ∷ ys) = text_eq x y && texts_equal xs ys

-- The name of a field that has changed.
abbrev named : Bool → Text → List Text
named same name = if same then [] else name ∷ []

abbrev same_hook : Text → Text → Bool
same_hook previous next = texts_equal (hook_lines previous) (hook_lines next)

-- Hooks are compared line by line, as they are rendered.
unfoldable pub changed_fields : ServerConfig → ServerConfig → List Text
unfolding texts_equal hook_lines
changed_fields previous next = flatten (
    named (text_eq previous.address next.address) (codes "Address")
    ∷ named (text_eq previous.dns next.dns) (codes "DNS")
    ∷ named (previous.mtu == next.mtu) (codes "MTU")
    ∷ named (text_eq previous.table next.table) (codes "Table")
    ∷ named (text_eq previous.fw_mark next.fw_mark) (codes "FwMark")
    ∷ named (same_hook previous.pre_up next.pre_up) (codes "PreUp")
    ∷ named (same_hook previous.post_up next.post_up) (codes "PostUp")
    ∷ named (same_hook previous.pre_down next.pre_down) (codes "PreDown")
    ∷ named (same_hook previous.post_down next.post_down) (codes "PostDown")
    ∷ [])

reason_for : List Text → Option Text
reason_for [] = none
reason_for (f ∷ fs) = some (
    concat (
      err_restart_needed
      ∷ codes " because "
      ∷ join (codes ", ") (f ∷ fs)
      ∷ codes " changed; wg syncconf cannot apply wg-quick-managed settings"
      ∷ []))

-- `none` where `wg syncconf` applies every change.
unfoldable pub server_restart_reason : ServerConfig → ServerConfig → Option Text
unfolding changed_fields reason_for
server_restart_reason previous next = reason_for (changed_fields previous next)
