-- ===== src/Protocol/Ipv6.antt =====
-- pgen/core/protocol/ipv6.h: the class `ipv6`.
use libpgen.Base.{List, [], ◌∷◌}
use libpgen.Base.Run.{Exec, member, modify, ◌>>◌}
use libpgen.Header.{Header, ethernet, ipv6}
use libpgen.Header.Ethernet as EthernetHeader
use libpgen.Header.Ethernet.{EthernetHeader}
use libpgen.Header.Ipv6 as Ipv6Header
use libpgen.Header.Ipv6.{Ipv6Header}
use libpgen.Packet.{Packet}
use libpgen.Protocol
use libpgen.Protocol.{PacketClass}

pub record Ipv6 : Type 0 where
  pub eth : EthernetHeader
  pub ip : Ipv6Header

abbrev pub on_eth : {A : Type 0} → Exec EthernetHeader A → Exec Ipv6 A
on_eth = member (λ p. p.eth) (λ h p. record p { eth = h })

abbrev pub on_ip : {A : Type 0} → Exec Ipv6Header A → Exec Ipv6 A
on_ip = member (λ p. p.ip) (λ h p. record p { ip = h })

unfoldable pub clear : Exec Ipv6 (Unit {0})
clear = do
  on_eth EthernetHeader.clear
  modify (λ p. record p { eth = record p.eth { type = 0x86dd } })
  on_ip Ipv6Header.clear

unfoldable pub init_headers : Ipv6 → List Header
init_headers p = ethernet p.eth ∷ ipv6 p.ip ∷ []

unfoldable pub class : PacketClass Ipv6
class = record { clear = clear; init_headers = init_headers }

-- The copy constructor.
unfoldable pub copy : Packet → Packet
unfolding Protocol.copy
copy rhs = Protocol.copy rhs
