-- ===== src/Protocol/Ipv4.antt =====
-- pgen/core/protocol/ip.h: the class `ipv4`.
use libpgen.Base.{List, [], ◌∷◌}
use libpgen.Base.Run.{Exec, member, modify, ◌>>◌}
use libpgen.Header.{Header, ethernet, ipv4}
use libpgen.Header.Ethernet as EthernetHeader
use libpgen.Header.Ethernet.{EthernetHeader}
use libpgen.Header.Ipv4 as Ipv4Header
use libpgen.Header.Ipv4.{Ipv4Header}
use libpgen.Ipv4Address.{Pton}
use libpgen.Packet.{Packet}
use libpgen.Protocol
use libpgen.Protocol.{PacketClass}

pub record Ipv4 : Type 0 where
  pub eth : EthernetHeader
  pub ip : Ipv4Header

abbrev pub on_eth : {A : Type 0} → Exec EthernetHeader A → Exec Ipv4 A
on_eth = member (λ p. p.eth) (λ h p. record p { eth = h })

abbrev pub on_ip : {A : Type 0} → Exec Ipv4Header A → Exec Ipv4 A
on_ip = member (λ p. p.ip) (λ h p. record p { ip = h })

unfoldable pub clear : Pton → Exec Ipv4 (Unit {0})
clear inet_pton = do
  on_eth EthernetHeader.clear
  modify (λ p. record p { eth = record p.eth { type = 0x0800 } })
  on_ip (Ipv4Header.clear inet_pton)

unfoldable pub init_headers : Ipv4 → List Header
init_headers p = ethernet p.eth ∷ ipv4 p.ip ∷ []

unfoldable pub class : Pton → PacketClass Ipv4
class inet_pton = record { clear = clear inet_pton; init_headers = init_headers }

-- The copy constructor.
unfoldable pub copy : Packet → Packet
unfolding Protocol.copy
copy rhs = Protocol.copy rhs
