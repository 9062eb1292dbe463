-- ===== src/WireGuard.antt =====
-- internal/wireguard/wireguard.go: the configuration files of wg-quick, and the live interface. The
-- text that Go's text/template makes of a template is written out line by line.
pub mod Lines
pub mod Render
pub mod Client
pub mod Restart
pub mod Live
mod Tests
use wg_busy.Prelude.{Text, codes}

-- The error of a configuration that only a restart of the interface can apply.
abbrev pub err_restart_needed : Text
err_restart_needed = codes "WireGuard requires a restart via Apply Config"

abbrev pub err_interface_down : Text
err_interface_down = codes "WireGuard interface wg0 is not running"
