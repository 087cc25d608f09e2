-- ===== src/Tests/Data.antt =====
-- The data of the tests: a UDP packet with an IPv4 option, as bytes and as a packet object.
use libpgen.Base.{ℕ, refl, List, [], ◌∷◌, replicate, arith}
use libpgen.Header.{ethernet, ipv4, udp}
use libpgen.Header.Arp.{ArpHeader}
use libpgen.Header.Ethernet.{EthernetHeader}
use libpgen.Header.Ethernet.Laws as EthernetLaws
use libpgen.Header.Ipv4.{Ipv4Header}
use libpgen.Header.Ipv4.Laws as Ipv4Laws
use libpgen.Header.Ipv6.{Ipv6Header}
use libpgen.Header.Udp.{UdpHeader}
use libpgen.Header.Udp.Laws as UdpLaws
use libpgen.Ipv4Address.{Ipv4Address}
use libpgen.Ipv6Address.{Ipv6Address}
use libpgen.MacAddress.{MacAddress}
use libpgen.Packet.{Packet}
use libpgen.Packet.{unknown}
use libpgen.Packet.Laws.{IsValid}

-- An object before its constructor.
abbrev pub any_mac : MacAddress
any_mac = record { raw = replicate 6 7; name = [] }

abbrev pub any_ipv4 : Ipv4Address
any_ipv4 = record { raw = replicate 4 7; name = [] }

abbrev pub any_ipv6 : Ipv6Address
any_ipv6 = record { raw = replicate 8 7; name = [] }

abbrev pub any_ethernet : EthernetHeader
any_ethernet = record { dst = any_mac; src = any_mac; type = 7 }

abbrev pub any_udp : UdpHeader
any_udp = record { src = 7; dst = 7; len = 7; check = 7 }

abbrev pub any_ip : Ipv4Header
any_ip = record {
  version = 7;
  hlen = 7;
  tos = 7;
  tot_len = 7;
  id = 7;
  frag_off = 7;
  ttl = 7;
  protocol = 7;
  check = 7;
  src = any_ipv4;
  dst = any_ipv4;
  option = replicate 40 7;
}

abbrev pub any_ipv6_header : Ipv6Header
any_ipv6_header = record {
  version = 7;
  trafic_class = 7;
  flow_level = 7;
  payload_len = 7;
  next_header = 7;
  hop_limit = 7;
  src = any_ipv6;
  dst = any_ipv6;
}

abbrev pub any_arp : ArpHeader
any_arp = record {
  hwtype = 7;
  ptype = 7;
  hwlen = 7;
  plen = 7;
  operation = 7;
  hwsrc = any_mac;
  psrc = any_ipv4;
  hwdst = any_mac;
  pdst = any_ipv4;
}

-- Ethernet, IPv4 with four bytes of options, UDP, and two bytes of contents.
abbrev pub udp_bytes : List ℕ
udp_bytes =
    255 ∷ 255 ∷ 255 ∷ 255 ∷ 255 ∷ 255 ∷ 0 ∷ 1 ∷ 2 ∷ 3 ∷ 4 ∷ 5 ∷ 8 ∷ 0 ∷ 70 ∷ 0 ∷ 0 ∷ 34 ∷ 0 ∷ 1 ∷ 0
    ∷ 0 ∷ 64 ∷ 17 ∷ 0 ∷ 0 ∷ 10 ∷ 0 ∷ 0 ∷ 1 ∷ 10 ∷ 0 ∷ 0 ∷ 2 ∷ 1 ∷ 1 ∷ 1 ∷ 0 ∷ 0 ∷ 53 ∷ 0 ∷ 53 ∷ 0
    ∷ 10 ∷ 0 ∷ 0 ∷ 104 ∷ 105 ∷ []

-- The packet object that is to read them: an Ethernet, an IPv4 and a UDP header, cleared, and two
-- bytes of old contents.
abbrev pub udp_packet : Packet
udp_packet = record {
  type = unknown;
  raw = record { vec = replicate 130 9; pivot = 128 };
  headers =
      ethernet (EthernetLaws.cleared any_ethernet)
      ∷ ipv4 (Ipv4Laws.cleared any_ip)
      ∷ udp any_udp
      ∷ [];
}

pub any_udp-IsValid : UdpLaws.IsValid any_udp
any_udp-IsValid = record {
  src = omega arith;
  dst = omega arith;
  len = omega arith;
  check = omega arith;
}

pub udp_packet-IsValid : IsValid udp_packet
udp_packet-IsValid = record {
  container = record { front = omega arith; bytes = omega arith };
  pivot = refl;
  headers = (
    EthernetLaws.cleared-IsValid any_ethernet,
    (Ipv4Laws.cleared-IsValid any_ip, (any_udp-IsValid, tt)),
  );
  small = omega arith;
}
