-- ===== src/Header/Summary.antt =====
-- pgen/core/protocol: what `summary` of each of the five headers prints, with and without `moreinfo`.
pub mod Ethernet
use libpgen.Base.{ℕ, List, [], ◌∷◌, ◌++◌, Bool, true, false, String, ◌==◌, if◌then◌else◌}
use libpgen.Base.Text.{Text, codes, hex4, decimal, decimal32, hex_wide}
use libpgen.Header.{Header, ethernet, arp, ipv4, ipv6, udp}
use libpgen.Header.Arp.{ArpHeader, request, reply}
use libpgen.Header.Ethernet.{EthernetHeader}
use libpgen.Header.Ipv4.{Ipv4Header}
use libpgen.Header.Ipv6.{Ipv6Header}
use libpgen.Header.Udp.{UdpHeader}

-- A line with what stands before and behind a text.
abbrev pub line : String → Text → Text
line label text = codes label ++ text ++ codes " \n"

abbrev pub more : Bool → Text → Text
more moreinfo text = if moreinfo then text else []

unfoldable pub summary_ethernet : EthernetHeader → Bool → Text
summary_ethernet h moreinfo =
    codes "Ethernet ["
    ++ h.src.name
    ++ codes " -> "
    ++ h.dst.name
    ++ codes " type=0x"
    ++ hex4 h.type
    ++ codes "] \n"
    ++ more moreinfo (
        line " - source      : " h.src.name
        ++ line " - destination : " h.dst.name
        ++ line " - type        : 0x" (hex4 h.type))

-- The text between the brackets. A request names the hardware address of its sender behind "Tell".
abbrev pub arp_text : ArpHeader → Text
arp_text h =
    if h.operation == 1
    then codes "Who has " ++ h.pdst.name ++ codes "? Tell " ++ h.hwsrc.name
    else if h.operation == 2
    then h.psrc.name ++ codes " is at " ++ h.hwsrc.name
    else codes "unknown arp operation"

unfoldable pub summary_arp : ArpHeader → Bool → Text
summary_arp h moreinfo =
    codes "ARP ["
    ++ arp_text h
    ++ codes "]\n"
    ++ more moreinfo (
        line " - hardware type : 0x" (hex4 h.hwtype)
        ++ line " - protocol type : 0x" (hex4 h.ptype)
        ++ line " - hardware len  : " (decimal h.hwlen)
        ++ line " - protocol len  : " (decimal h.plen)
        ++ codes " - operation     : "
        ++ (if h.operation == request
            then codes "request("
            else if h.operation == reply
            then codes "reply("
            else codes "unknown(")
        ++ decimal32 h.operation
        ++ codes ")\n"
        ++ line " - sender hw addr: " h.hwsrc.name
        ++ line " - sender p  addr: " h.psrc.name
        ++ line " - target hw addr: " h.hwdst.name
        ++ line " - target p  addr: " h.pdst.name)

unfoldable pub summary_ipv4 : Ipv4Header → Bool → Text
summary_ipv4 h moreinfo =
    codes "IP ["
    ++ h.src.name
    ++ codes " -> "
    ++ h.dst.name
    ++ codes " protocol="
    ++ decimal h.protocol
    ++ codes "] \n"
    ++ more moreinfo (
        line " - version        : " (decimal h.version)
        ++ line " - header len     : " (decimal h.hlen)
        ++ line " - type of service: " (decimal h.tos)
        ++ line " - total length   : " (decimal32 h.tot_len)
        ++ line " - identifer      : " (decimal32 h.id)
        ++ line " - fragment offset: " (decimal32 h.frag_off)
        ++ line " - time to leave  : " (decimal h.ttl)
        ++ line " - protocol       : " (decimal h.protocol)
        ++ line " - checksum       : " (decimal32 h.check)
        ++ line " - source         : " h.src.name
        ++ line " - destination    : " h.dst.name)

unfoldable pub summary_ipv6 : Ipv6Header → Bool → Text
summary_ipv6 h moreinfo =
    codes "IPv6 ["
    ++ h.src.name
    ++ codes " -> "
    ++ h.dst.name
    ++ codes "]\n"
    ++ more moreinfo (
        line " - version        : " (decimal h.version)
        ++ line " - trafic code    : 0x" (hex_wide 2 h.trafic_class)
        ++ line " - flow level     : 0x" (hex_wide 6 h.flow_level)
        ++ line " - payload length : " (decimal32 h.payload_len)
        ++ line " - next header    : " (decimal h.next_header)
        ++ line " - hop limit      : " (decimal h.hop_limit)
        ++ line " - source         : " h.src.name
        ++ line " - destination    : " h.dst.name)

unfoldable pub summary_udp : UdpHeader → Bool → Text
summary_udp h moreinfo =
    codes "UDP ["
    ++ decimal32 h.src
    ++ codes " -> "
    ++ decimal32 h.dst
    ++ codes "] \n"
    ++ more moreinfo (
        line " - source         : " (decimal32 h.src)
        ++ line " - destination    : " (decimal32 h.dst)
        ++ line " - total length   : " (decimal32 h.len)
        ++ line " - checksum       : 0x" (hex_wide 2 h.check))

-- The virtual call.
pub summary : Header → Bool → Text
unfolding summary_ethernet summary_arp summary_ipv4 summary_ipv6 summary_udp
summary (ethernet h) = summary_ethernet h
summary (arp h) = summary_arp h
summary (ipv4 h) = summary_ipv4 h
summary (ipv6 h) = summary_ipv6 h
summary (udp h) = summary_udp h
