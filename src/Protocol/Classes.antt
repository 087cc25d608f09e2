-- ===== src/Protocol/Classes.antt =====
-- The five packet classes clear their headers, and what arp's copy constructor loses.
use libpgen.Base.{◌≡◌, refl, ap, ◌∙◌, [], some, replicate, arith}
use libpgen.Base.Run.{ok, >>=-ok, member-ok}
use libpgen.Base.Text.{codes}
use libpgen.DataContainer
use libpgen.Header.Arp as ArpHeader
use libpgen.Header.Arp.Laws as ArpLaws
use libpgen.Header.Ethernet as EthernetHeader
use libpgen.Header.Ethernet.Laws as EthernetLaws
use libpgen.Header.Ipv4 as Ipv4Header
use libpgen.Header.Ipv4.Laws as Ipv4Laws
use libpgen.Header.Ipv4.Valid as Ipv4Valid
use libpgen.Header.Ipv6 as Ipv6Header
use libpgen.Header.Ipv6.Laws as Ipv6Laws
use libpgen.Header.Udp as UdpHeader
use libpgen.Ipv4Address.{Pton}
use libpgen.Packet.{Packet, PacketType, contents}
use libpgen.Protocol.Arp
use libpgen.Protocol.Arp.{Arp}
use libpgen.Protocol.Ethernet
use libpgen.Protocol.Ethernet.{Ethernet}
use libpgen.Protocol.Ipv4
use libpgen.Protocol.Ipv4.{Ipv4}
use libpgen.Protocol.Ipv6
use libpgen.Protocol.Ipv6.{Ipv6}
use libpgen.Protocol.{construct, started}
use libpgen.Protocol.Laws.{IsClass}
use libpgen.Protocol.Udp
use libpgen.Protocol.Udp.{Udp}

unfoldable pub ethernet_class : IsClass Ethernet.class
unfolding Ethernet.class Ethernet.clear Ethernet.init_headers
ethernet_class = record {
  cleared = λ p. record { eth = EthernetLaws.cleared p.eth };
  clears = λ p.
      member-ok (λ q. q.eth) (λ h q. record q { eth = h }) EthernetHeader.clear p
        (EthernetLaws.clear_lem p.eth);
  valid = λ p. (EthernetLaws.cleared-IsValid p.eth, tt);
  small = λ p. omega arith;
}

abbrev pub arp_cleared : Arp → Arp
arp_cleared p = record {
  eth = record (EthernetLaws.cleared p.eth) { type = 0x0806 };
  arp_header = ArpLaws.cleared p.arp_header;
}

unfoldable pub arp_class : IsClass Arp.class
unfolding Arp.class Arp.clear Arp.init_headers
arp_class = record {
  cleared = arp_cleared;
  clears = λ p.
      >>=-ok (Arp.on_eth EthernetHeader.clear) _ p (
        member-ok (λ q. q.eth) (λ h q. record q { eth = h }) EthernetHeader.clear p
          (EthernetLaws.clear_lem p.eth))
      ∙ member-ok (λ q. q.arp_header) (λ h q. record q { arp_header = h }) ArpHeader.clear _
          (ArpLaws.clear_lem p.arp_header);
  valid = λ p. (
    EthernetLaws.with_type-IsValid (EthernetLaws.cleared p.eth) 0x0806
        (EthernetLaws.cleared-IsValid p.eth) (omega arith),
    (ArpLaws.cleared-IsValid p.arp_header, tt),
  );
  small = λ p. omega arith;
}

abbrev pub ipv6_cleared : Ipv6 → Ipv6
ipv6_cleared p = record {
  eth = record (EthernetLaws.cleared p.eth) { type = 0x86dd };
  ip = Ipv6Laws.cleared p.ip;
}

unfoldable pub ipv6_class : IsClass Ipv6.class
unfolding Ipv6.class Ipv6.clear Ipv6.init_headers
ipv6_class = record {
  cleared = ipv6_cleared;
  clears = λ p.
      >>=-ok (Ipv6.on_eth EthernetHeader.clear) _ p (
        member-ok (λ q. q.eth) (λ h q. record q { eth = h }) EthernetHeader.clear p
          (EthernetLaws.clear_lem p.eth))
      ∙ member-ok (λ q. q.ip) (λ h q. record q { ip = h }) Ipv6Header.clear _
          (Ipv6Laws.clear_lem p.ip);
  valid = λ p. (
    EthernetLaws.with_type-IsValid (EthernetLaws.cleared p.eth) 0x86dd
        (EthernetLaws.cleared-IsValid p.eth) (omega arith),
    (Ipv6Laws.cleared-IsValid p.ip, tt),
  );
  small = λ p. omega arith;
}

module _ (inet_pton : Pton) (zeros : inet_pton (codes "0.0.0.0") ≡ some (replicate 4 0)) where
  abbrev pub ipv4_cleared : Ipv4 → Ipv4
  ipv4_cleared p = record {
    eth = record (EthernetLaws.cleared p.eth) { type = 0x0800 };
    ip = Ipv4Laws.cleared p.ip;
  }

  unfoldable pub ipv4_class : IsClass (Ipv4.class inet_pton)
  unfolding Ipv4.class Ipv4.clear Ipv4.init_headers
  ipv4_class = record {
    cleared = ipv4_cleared;
    clears = λ p.
        >>=-ok (Ipv4.on_eth EthernetHeader.clear) _ p (
          member-ok (λ q. q.eth) (λ h q. record q { eth = h }) EthernetHeader.clear p
            (EthernetLaws.clear_lem p.eth))
        ∙ member-ok (λ q. q.ip) (λ h q. record q { ip = h }) (Ipv4Header.clear inet_pton) _
            (Ipv4Laws.clear_lem inet_pton p.ip zeros);
    valid = λ p. (
      EthernetLaws.with_type-IsValid (EthernetLaws.cleared p.eth) 0x0800
          (EthernetLaws.cleared-IsValid p.eth) (omega arith),
      (Ipv4Laws.cleared-IsValid p.ip, tt),
    );
    small = λ p. omega arith;
  }

  abbrev pub udp_cleared : Udp → Udp
  udp_cleared p = record {
    udp_header = record { src = 53; dst = 53; len = 8; check = 0 };
    ip = record (Ipv4Laws.cleared p.ip) { protocol = 17; tot_len = 28 };
    eth = record (EthernetLaws.cleared p.eth) { type = 0x0800 };
  }

  pub udp_ip-IsValid : (p : Udp) → Ipv4Valid.IsValid (udp_cleared p).ip
  udp_ip-IsValid p =
      let v = Ipv4Laws.cleared-IsValid p.ip in
      record {
        version = omega arith;
        hlen_low = omega arith;
        hlen_high = omega arith;
        tos = omega arith;
        tot_len = omega arith;
        id = omega arith;
        frag_off = omega arith;
        ttl = omega arith;
        protocol = omega arith;
        check = omega arith;
        src = v.src;
        dst = v.dst;
        option_room = refl;
        option_bytes = v.option_bytes;
      }

  unfoldable pub udp_class : IsClass (Udp.class inet_pton)
  unfolding Udp.class Udp.clear Udp.init_headers UdpHeader.clear Ipv4Header.length_of
      UdpHeader.length_of
  udp_class = record {
    cleared = udp_cleared;
    clears = λ p.
        >>=-ok (Udp.on_eth EthernetHeader.clear) _ p (
          member-ok (λ q. q.eth) (λ h q. record q { eth = h }) EthernetHeader.clear p
            (EthernetLaws.clear_lem p.eth))
        ∙ >>=-ok (Udp.on_ip (Ipv4Header.clear inet_pton)) _ _ (
            member-ok (λ q. q.ip) (λ h q. record q { ip = h }) (Ipv4Header.clear inet_pton) _
              (Ipv4Laws.clear_lem inet_pton p.ip zeros));
    valid = λ p. (
      EthernetLaws.with_type-IsValid (EthernetLaws.cleared p.eth) 0x0800
          (EthernetLaws.cleared-IsValid p.eth) (omega arith),
      (
        udp_ip-IsValid p,
        (
          record { src = omega arith; dst = omega arith; len = omega arith; check = omega arith },
          tt,
        ),
      ),
    );
    small = λ p. omega arith;
  }

-- The copy constructor of `arp` returns and copies the headers, but not the contents: the copy has
-- none, whatever the contents of the packet it is made from.
pub arp_copy_drops_contents :
    (type : PacketType) (members : Arp) (rhs : Packet)
    → (p : Packet) × (Arp.copy type members rhs ≡ ok tt p)
      × (p.headers ≡ rhs.headers)
      × (contents p ≡ ok [] p)
unfolding Arp.copy contents DataContainer.construct construct
arp_copy_drops_contents type members rhs = (
  _,
  ap (λ r. Arp.with_headers rhs (started Arp.class type r)) (arp_class.clears members),
  refl,
  refl,
)
