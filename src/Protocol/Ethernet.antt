-- ===== src/Protocol/Ethernet.antt =====
-- pgen/core/protocol/ethernet.h: the class `ethernet`.
use libpgen.Base.{List, [], ◌∷◌}
use libpgen.Base.Run.{Exec, member}
use libpgen.Header.{Header, ethernet}
use libpgen.Header.Ethernet as Header
use libpgen.Header.Ethernet.{EthernetHeader}
use libpgen.Packet.{Packet}
use libpgen.Protocol
use libpgen.Protocol.{PacketClass}

pub record Ethernet : Type 0 where
  pub eth : EthernetHeader

abbrev pub on_eth : {A : Type 0} → Exec EthernetHeader A → Exec Ethernet A
on_eth = member (λ p. p.eth) (λ h p. record p { eth = h })

unfoldable pub clear : Exec Ethernet (Unit {0})
clear = on_eth Header.clear

unfoldable pub init_headers : Ethernet → List Header
init_headers p = ethernet p.eth ∷ []

unfoldable pub class : PacketClass Ethernet
class = record { clear = clear; init_headers = init_headers }

-- The copy constructor.
unfoldable pub copy : Packet → Packet
unfolding Protocol.copy
copy rhs = Protocol.copy rhs
