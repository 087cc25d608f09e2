-- ===== src/Protocol/Udp.antt =====
-- pgen/core/protocol/udp.h: the class `udp`.
use libpgen.Base.{ℕ, ◌+◌, ◌%◌, List, [], ◌∷◌}
use libpgen.Base.Run.{Exec, member, modify, ◌>>◌}
use libpgen.Header.{Header, ethernet, ipv4, udp}
use libpgen.Header.Ethernet as EthernetHeader
use libpgen.Header.Ethernet.{EthernetHeader}
use libpgen.Header.Ipv4 as Ipv4Header
use libpgen.Header.Ipv4.{Ipv4Header}
use libpgen.Header.Udp as UdpHeader
use libpgen.Header.Udp.{UdpHeader}
use libpgen.Ipv4Address.{Pton}
use libpgen.Packet.{Packet}
use libpgen.Protocol
use libpgen.Protocol.{PacketClass}

pub record Udp : Type 0 where
  pub udp_header : UdpHeader
  pub ip : Ipv4Header
  pub eth : EthernetHeader

abbrev pub on_eth : {A : Type 0} → Exec EthernetHeader A → Exec Udp A
on_eth = member (λ p. p.eth) (λ h p. record p { eth = h })

abbrev pub on_ip : {A : Type 0} → Exec Ipv4Header A → Exec Udp A
on_ip = member (λ p. p.ip) (λ h p. record p { ip = h })

abbrev pub on_udp : {A : Type 0} → Exec UdpHeader A → Exec Udp A
on_udp = member (λ p. p.udp_header) (λ h p. record p { udp_header = h })

abbrev tot_len : Udp → ℕ
tot_len p = Ipv4Header.length_of p.ip + UdpHeader.length_of p.udp_header

unfoldable pub clear : Pton → Exec Udp (Unit {0})
clear inet_pton = do
  on_eth EthernetHeader.clear
  modify (λ p. record p { eth = record p.eth { type = 0x0800 } })
  on_ip (Ipv4Header.clear inet_pton)
  modify (λ p. record p { ip = record p.ip { protocol = 17 } })
  modify (λ p. record p { ip = record p.ip { tot_len = tot_len p % 65536 } })
  on_udp UdpHeader.clear

unfoldable pub init_headers : Udp → List Header
init_headers p = ethernet p.eth ∷ ipv4 p.ip ∷ udp p.udp_header ∷ []

unfoldable pub class : Pton → PacketClass Udp
class inet_pton = record { clear = clear inet_pton; init_headers = init_headers }

-- The copy constructor.
unfoldable pub copy : Packet → Packet
unfolding Protocol.copy
copy rhs = Protocol.copy rhs
