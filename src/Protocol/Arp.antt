-- ===== src/Protocol/Arp.antt =====
-- pgen/core/protocol/arp.h: the class `arp`. Its copy constructor starts from a new packet.
use libpgen.Base.{List, [], ◌∷◌}
use libpgen.Base.Run.{Run, ok, throw, fault, Exec, member, modify, ◌>>◌}
use libpgen.Header.{Header, ethernet, arp}
use libpgen.Header.Arp as ArpHeader
use libpgen.Header.Arp.{ArpHeader}
use libpgen.Header.Ethernet as EthernetHeader
use libpgen.Header.Ethernet.{EthernetHeader}
use libpgen.Packet.{Packet, PacketType}
use libpgen.Protocol.{PacketClass, construct}

pub record Arp : Type 0 where
  pub eth : EthernetHeader
  pub arp_header : ArpHeader

abbrev pub on_eth : {A : Type 0} → Exec EthernetHeader A → Exec Arp A
on_eth = member (λ p. p.eth) (λ h p. record p { eth = h })

abbrev pub on_arp : {A : Type 0} → Exec ArpHeader A → Exec Arp A
on_arp = member (λ p. p.arp_header) (λ h p. record p { arp_header = h })

unfoldable pub clear : Exec Arp (Unit {0})
clear = do
  on_eth EthernetHeader.clear
  modify (λ p. record p { eth = record p.eth { type = 0x0806 } })
  on_arp ArpHeader.clear

unfoldable pub init_headers : Arp → List Header
init_headers p = ethernet p.eth ∷ arp p.arp_header ∷ []

unfoldable pub class : PacketClass Arp
class = record { clear = clear; init_headers = init_headers }

abbrev pub with_headers : Packet → Run Packet (Unit {0}) → Run Packet (Unit {0})
with_headers rhs (ok _ p) = ok tt (record p { headers = rhs.headers })
with_headers rhs (throw e p) = throw e p
with_headers rhs fault = fault

-- `arp(const pgen::arp& rhs) : arp()`
unfoldable pub copy : PacketType → Arp → Packet → Run Packet (Unit {0})
copy type members rhs = with_headers rhs (construct class type members)
