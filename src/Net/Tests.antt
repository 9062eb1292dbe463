-- ===== src/Net/Tests.antt =====
-- Runs of the address functions, on inputs whose answers the Go documentation gives.
use wg_busy.Prelude.{◌≡◌, refl, codes, some, none, Option, Text}
use wg_busy.Net.Parse.{parse_ip, parse_cidr}
use wg_busy.Net.Format.{ip_text, cidr_text}

abbrev rendered : Text → Option Text
rendered s = elim (parse_ip s) [ none ↦ none | some a ↦ some (ip_text a) ]

abbrev network : Text → Option Text
network s = elim (parse_cidr s) [ none ↦ none | some a ↦ some (cidr_text a) ]

ip1 : rendered (codes "10.0.0.1") ≡ some (codes "10.0.0.1")
unfolding parse_ip ip_text
ip1 = refl

ip2 : rendered (codes "2001:db8:0:0:1:0:0:1") ≡ some (codes "2001:db8::1:0:0:1")
unfolding parse_ip ip_text
ip2 = refl

ip3 : rendered (codes "::ffff:1.2.3.4") ≡ some (codes "1.2.3.4")
unfolding parse_ip ip_text
ip3 = refl

ip4 : rendered (codes "fd00::") ≡ some (codes "fd00::")
unfolding parse_ip ip_text
ip4 = refl

ip5 : rendered (codes "01.2.3.4") ≡ none
unfolding parse_ip ip_text
ip5 = refl

ip6 : rendered (codes "::") ≡ some (codes "::")
unfolding parse_ip ip_text
ip6 = refl

net1 : network (codes "192.168.178.77/24") ≡ some (codes "192.168.178.0/24")
unfolding parse_cidr cidr_text
net1 = refl

net2 : network (codes "2001:db8:ffff::1/33") ≡ some (codes "2001:db8:8000::/33")
unfolding parse_cidr cidr_text
net2 = refl

net3 : network (codes "10.0.0.1/33") ≡ none
unfolding parse_cidr cidr_text
net3 = refl

net4 : network (codes "::ffff:10.1.2.3/120") ≡ some (codes "10.1.2.0/24")
unfolding parse_cidr cidr_text
net4 = refl
