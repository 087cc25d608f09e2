-- ===== src/Header/Errors.antt =====
-- The length checks of `write` and `read`, for a call through the base class.
use libpgen.Base.{ℕ, ◌*◌, ◌≤◌, ◌<◌, ◌≡◌, ap, List, String, arith, lt→ltb}
use libpgen.Base.Run.{throw}
use libpgen.Header.{Header, ethernet, arp, ipv4, ipv6, udp, write, read, upcast}
use libpgen.Header.Arp.Laws as ArpLaws
use libpgen.Header.Ethernet.Laws as EthernetLaws
use libpgen.Header.Ipv4
use libpgen.Header.Ipv4.{Ipv4Header}
use libpgen.Header.Ipv6.Laws as Ipv6Laws
use libpgen.Header.Laws.{IsValid}
use libpgen.Header.Udp.Laws as UdpLaws

-- The fewest bytes that a header of its protocol can have.
abbrev pub min_of : Header → ℕ
min_of (ethernet h) = 14
min_of (arp h) = 28
min_of (ipv4 h) = 20
min_of (ipv6 h) = 40
min_of (udp h) = 8

ipv4_short :
    (h : Ipv4Header) (at len : ℕ) (buf mem : List ℕ)
    → 5 ≤ h.hlen
    → len < 20
    → (Ipv4.write h at len mem ≡ throw "pgen::ipv4_header::read: buflen is too small" mem)
      × (Ipv4.read buf at len h ≡ throw "pgen::ipv4_header::read: buflen is too small" h)
unfolding Ipv4.write Ipv4.read
ipv4_short h at len buf mem v l = (rw (lt→ltb len (h.hlen * 4) (omega arith)), rw (lt→ltb len 20 l))

-- Given a length below the fewest bytes that a header of its protocol can have, `write` and `read` of a
-- valid header throw: `write` leaves the memory as before, and `read` the header. For IPv4 that is a
-- length below 20, whatever length the header itself says.
pub short_throws :
    (h : Header) (at len : ℕ) (buf mem : List ℕ)
    → IsValid h
    → len < min_of h
    → ((e : String) × (write h at len mem ≡ throw e mem))
      × ((e : String) × (read buf at len h ≡ throw e h))
unfolding write read
short_throws (ethernet h) at len buf mem v l =
    let (w, r) = EthernetLaws.short_throws h at len buf mem l in
    ((_, w), (_, ap (upcast ethernet) r))
short_throws (arp h) at len buf mem v l =
    let (w, r) = ArpLaws.short_throws h at len buf mem l in ((_, w), (_, ap (upcast arp) r))
short_throws (ipv4 h) at len buf mem v l =
    let (w, r) = ipv4_short h at len buf mem v.hlen_low l in ((_, w), (_, ap (upcast ipv4) r))
short_throws (ipv6 h) at len buf mem v l =
    let (w, r) = Ipv6Laws.short_throws h at len buf mem l in ((_, w), (_, ap (upcast ipv6) r))
short_throws (udp h) at len buf mem v l =
    let (w, r) = UdpLaws.short_throws h at len buf mem l in ((_, w), (_, ap (upcast udp) r))
