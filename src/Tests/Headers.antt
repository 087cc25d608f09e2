-- ===== src/Tests/Headers.antt =====
-- Headers: written, read back, and given too few bytes.
use libpgen.Base.{ℕ, ◌-◌, ◌*◌, ◌≡◌, refl, true, String, List, ◌∷◌, arith, drop, take, replicate}
use libpgen.Base.Run.{ok, throw, fault}
use libpgen.Base.Splice.{splice}
use libpgen.Header
use libpgen.Header.{Header, ethernet, udp, ipv4, ipv6}
use libpgen.Header.Errors.{short_throws}
use libpgen.Header.Ethernet.Laws as EthernetLaws
use libpgen.Header.Ipv4
use libpgen.Header.Ipv4.Laws as Ipv4Laws
use libpgen.Header.Ipv6
use libpgen.Header.Ipv6.Laws as Ipv6Laws
use libpgen.Header.Laws.{Reads, IsValid, image, read_image, write_image}
use libpgen.Header.Readable.{length_in, read_total}
use libpgen.Header.Summary.Ethernet.{summary_ethernet-injective}
use libpgen.Header.Udp
use libpgen.Layout.{Memory}
use libpgen.Tests.Data.{any_ethernet, any_ip, any_ipv6_header, any_udp, any_udp-IsValid, udp_bytes}

abbrev space : Memory
space = replicate 50 9

read-write_ipv4_example :
    let h = Ipv4Laws.cleared any_ip in
    (mem' : Memory) × (Ipv4.write h 0 20 space ≡ ok tt mem')
    × (Ipv4.read mem' 0 20 any_ip
        ≡ ok tt (record h { option = splice 0 (take (5 * 4 - 20) h.option) any_ip.option }))
unfolding Ipv4.length_of
read-write_ipv4_example =
    Ipv4Laws.read-write_ipv4 (Ipv4Laws.cleared any_ip) any_ip 0 20 space
      (Ipv4Laws.cleared-IsValid any_ip) refl (omega arith) (omega arith)

read_total_example :
    (h' : Header) × (Header.read udp_bytes 14 34 (ipv4 (Ipv4Laws.cleared any_ip)) ≡ ok tt h')
    × IsValid h'
    × (Header.length_of h' ≡ length_in (ipv4 (Ipv4Laws.cleared any_ip)) (drop 14 udp_bytes))
    × (image h'
        ≡ take (length_in (ipv4 (Ipv4Laws.cleared any_ip)) (drop 14 udp_bytes)) (drop 14 udp_bytes))
read_total_example =
    read_total (ipv4 (Ipv4Laws.cleared any_ip)) udp_bytes 14 34 (omega arith) (omega arith)
      (Ipv4Laws.cleared-IsValid any_ip)
      (record { enough = omega arith; room = omega arith; long = omega arith; kept = tt })

read_image_example : Reads udp_bytes 14 34 (ipv4 (Ipv4Laws.cleared any_ip)) read_total_example.0
read_image_example =
    read_image (ipv4 (Ipv4Laws.cleared any_ip)) read_total_example.0 udp_bytes 14 34 (omega arith)
      (Ipv4Laws.cleared-IsValid any_ip) read_total_example.1

write_image_example :
    Header.write (udp any_udp) 40 8 space ≡ ok tt (splice 40 (image (udp any_udp)) space)
unfolding Header.length_of Udp.length_of
write_image_example =
    write_image (udp any_udp) 40 8 space any_udp-IsValid (omega arith) (omega arith)

short_throws_example :
    let h = ethernet (EthernetLaws.cleared any_ethernet) in
    ((e : String) × (Header.write h 0 13 space ≡ throw e space))
    × ((e : String) × (Header.read udp_bytes 0 13 h ≡ throw e h))
short_throws_example =
    short_throws (ethernet (EthernetLaws.cleared any_ethernet)) 0 13 udp_bytes space
      (EthernetLaws.cleared-IsValid any_ethernet) (omega arith)

-- Twenty bytes whose first says version 4 and four words of header.
abbrev short_hlen : List ℕ
short_hlen = 68 ∷ replicate 19 0

read_faults_on_short_hlen_example : Ipv4.read short_hlen 0 20 any_ip ≡ fault
read_faults_on_short_hlen_example =
    Ipv4Laws.read_faults_on_short_hlen any_ip short_hlen 0 20 (omega arith) (omega arith)
      (omega arith) (omega arith)

write_drops_flow_example :
    Ipv6.write (record any_ipv6_header { trafic_class = 1; flow_level = 2 }) 0 40 space
    ≡ Ipv6.write any_ipv6_header 0 40 space
write_drops_flow_example = Ipv6Laws.write_drops_flow any_ipv6_header 1 2 0 40 space

summary_ethernet-injective_example :
    EthernetLaws.cleared any_ethernet ≡ EthernetLaws.cleared (record any_ethernet { type = 8 })
summary_ethernet-injective_example =
    summary_ethernet-injective (EthernetLaws.cleared any_ethernet)
      (EthernetLaws.cleared (record any_ethernet { type = 8 })) true
      (EthernetLaws.cleared-IsValid any_ethernet)
      (EthernetLaws.cleared-IsValid (record any_ethernet { type = 8 })) refl
