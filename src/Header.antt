-- ===== src/Header.antt =====
-- pgen/core/header.h and pgen/core/protocol: a pointer to `header` is a header of one of the five
-- protocols, and a virtual call goes to that protocol's method.
pub mod Contract
pub mod Struct
pub mod Ethernet
pub mod Arp
pub mod Udp
pub mod Ipv4
pub mod Ipv6
pub mod Laws
pub mod Readable
pub mod Errors
pub mod Summary
use libpgen.Base.{ℕ, List}
use libpgen.Base.Run.{Run, ok, throw, fault, Exec}
use libpgen.Layout.{Memory}
use Ethernet.{EthernetHeader}
use Arp.{ArpHeader}
use Udp.{UdpHeader}
use Ipv4.{Ipv4Header}
use Ipv6.{Ipv6Header}

pub data Header : Type 0 where
  ethernet : EthernetHeader → Header
  arp : ArpHeader → Header
  ipv4 : Ipv4Header → Header
  ipv6 : Ipv6Header → Header
  udp : UdpHeader → Header

unfoldable pub length_of : Header → ℕ
length_of (ethernet h) = Ethernet.length_of h
length_of (arp h) = Arp.length_of h
length_of (ipv4 h) = Ipv4.length_of h
length_of (ipv6 h) = Ipv6.length_of h
length_of (udp h) = Udp.length_of h

unfoldable pub write : Header → ℕ → ℕ → Exec Memory (Unit {0})
write (ethernet h) = Ethernet.write h
write (arp h) = Arp.write h
write (ipv4 h) = Ipv4.write h
write (ipv6 h) = Ipv6.write h
write (udp h) = Udp.write h

-- A method's outcome, its object seen as a `header`.
abbrev pub upcast : {H : Type 0} → (H → Header) → Run H (Unit {0}) → Run Header (Unit {0})
upcast c (ok a h) = ok a (c h)
upcast c (throw e h) = throw e (c h)
upcast c fault = fault

unfoldable pub read : List ℕ → ℕ → ℕ → Exec Header (Unit {0})
read buf at len (ethernet h) = upcast ethernet (Ethernet.read buf at len h)
read buf at len (arp h) = upcast arp (Arp.read buf at len h)
read buf at len (ipv4 h) = upcast ipv4 (Ipv4.read buf at len h)
read buf at len (ipv6 h) = upcast ipv6 (Ipv6.read buf at len h)
read buf at len (udp h) = upcast udp (Udp.read buf at len h)
