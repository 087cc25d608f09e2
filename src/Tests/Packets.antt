-- ===== src/Tests/Packets.antt =====
-- Packets: analyzed, compiled, and made by a class's constructors.
use libpgen.Base.{◌≡◌, ◌≤◌, take, drop, refl, [], ◌∷◌, ◌++◌, length, arith, some, replicate}
use libpgen.Base.Run.{ok}
use libpgen.Header.{ethernet, arp, ipv4, udp}
use libpgen.Header.Ethernet.{EthernetHeader}
use libpgen.Header.Ethernet.Laws as EthernetLaws
use libpgen.Header.Ipv4.{Ipv4Header}
use libpgen.Header.Ipv4.Laws as Ipv4Laws
use libpgen.Header.Udp.{UdpHeader}
use libpgen.Ipv4Address.{Pton}
use libpgen.Packet.{Packet, unknown, header_length_of, compile, analyze, raw, contents, length_of}
use libpgen.Packet.Analyze.{raw-compile-analyze, analyze-Analyzed, Analyzed, analyze_total}
use libpgen.Packet.Headers.{images}
use libpgen.Packet.Laws.{IsValid, compile_lem}
use libpgen.Packet.Reading.{AllReadable}
use libpgen.Protocol.{construct_from}
use libpgen.Protocol.Classes.{udp_class}
use libpgen.Protocol.Laws.{IsClass, raw-compile-construct_from}
use libpgen.Protocol.Udp
use libpgen.Protocol.Udp.{Udp}
use libpgen.Tests.Data.{
  udp_bytes, udp_packet, udp_packet-IsValid, any_udp, any_ip, any_ethernet, any_arp,
}

-- Any UDP packet object can read the bytes.
pub udp_bytes-AllReadable :
    (e : EthernetHeader) (i : Ipv4Header) (u : UdpHeader)
    → AllReadable (ethernet e ∷ ipv4 i ∷ udp u ∷ []) (length udp_bytes) udp_bytes
udp_bytes-AllReadable e i u = (
  record { enough = omega arith; room = omega arith; long = tt; kept = tt },
  (
    record { enough = omega arith; room = omega arith; long = omega arith; kept = tt },
    (record { enough = omega arith; room = omega arith; long = tt; kept = tt }, tt),
  ),
)

raw-compile-analyze_example :
    (p' p'' : Packet) × (analyze udp_bytes (length udp_bytes) udp_packet ≡ ok tt p')
    × (compile p' ≡ ok tt p'')
    × (raw p'' ≡ ok udp_bytes p'')
    × (length_of p'' ≡ ok (length udp_bytes) p'')
raw-compile-analyze_example =
    raw-compile-analyze udp_bytes udp_packet (omega arith) (omega arith) udp_packet-IsValid
      (udp_bytes-AllReadable (EthernetLaws.cleared any_ethernet) (Ipv4Laws.cleared any_ip) any_udp)

analyze_total_example :
    (p' : Packet) × (analyze udp_bytes (length udp_bytes) udp_packet ≡ ok tt p')
    × IsValid p'
    × (header_length_of p'.headers ≤ length udp_bytes)
    × (images p'.headers ≡ take (header_length_of p'.headers) udp_bytes)
    × (contents p' ≡ ok (drop (header_length_of p'.headers) udp_bytes) p')
analyze_total_example =
    analyze_total udp_bytes udp_packet (omega arith) (omega arith) udp_packet-IsValid
      (udp_bytes-AllReadable (EthernetLaws.cleared any_ethernet) (Ipv4Laws.cleared any_ip) any_udp)

analyze-Analyzed_example : Analyzed udp_bytes (length udp_bytes) analyze_total_example.0
analyze-Analyzed_example =
    analyze-Analyzed udp_bytes (length udp_bytes) udp_packet analyze_total_example.0 (omega arith)
      (omega arith) udp_packet-IsValid analyze_total_example.1

compile_lem_example :
    (p' : Packet) × (compile udp_packet ≡ ok tt p')
    × IsValid p'
    × (p'.headers ≡ udp_packet.headers)
    × (raw p' ≡ ok (images udp_packet.headers ++ 9 ∷ 9 ∷ []) p')
    × (contents p' ≡ ok (9 ∷ 9 ∷ []) p')
compile_lem_example = compile_lem udp_packet udp_packet-IsValid

-- The class `udp` with an `inet_pton` that reads every text as 0.0.0.0.
abbrev any_pton : Pton
any_pton text = some (replicate 4 0)

abbrev any_members : Udp
any_members = record { udp_header = any_udp; ip = any_ip; eth = any_ethernet }

abbrev any_class : IsClass (Udp.class any_pton)
any_class = udp_class any_pton refl

raw-compile-construct_from_example :
    (p p' : Packet) × (construct_from
        (Udp.class any_pton)
        unknown
        any_members
        udp_bytes
        (length udp_bytes)
      ≡ ok tt p)
    × (compile p ≡ ok tt p')
    × (raw p' ≡ ok udp_bytes p')
    × (length_of p' ≡ ok (length udp_bytes) p')
unfolding Udp.class Udp.init_headers udp_class
raw-compile-construct_from_example =
    raw-compile-construct_from (Udp.class any_pton) any_class unknown any_members udp_bytes
      (omega arith) (omega arith)
      (udp_bytes-AllReadable (any_class.cleared any_members).eth (any_class.cleared any_members).ip
        (any_class.cleared any_members).udp_header)

abbrev any_arp_packet : Packet
any_arp_packet = record {
  type = unknown;
  raw = record { vec = replicate 130 9; pivot = 128 };
  headers = ethernet any_ethernet ∷ arp any_arp ∷ [];
}
