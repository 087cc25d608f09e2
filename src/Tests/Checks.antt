-- ===== src/Tests/Checks.antt =====
-- `check`, and `operator<<`, on a UDP packet.
use libpgen.Base.{
  ◌++◌, ◌≢◌, ◌⊎◌, drop, false, length-replicate, ℕ, ◌≡◌, [], ◌∷◌, some, none, true, arith, length,
  replicate,
}
use libpgen.Base.Run.{ok}
use libpgen.Module.{Checking, successed, binary_error, check_round, check}
use libpgen.FileStream.{advance}
use libpgen.FileStream.Laws.{file_at, stream}
use libpgen.Layout.{Memory}
use libpgen.Module.Termination.{check_total}
use libpgen.Packet.{Packet, header_length_of, analyze, compile}
use libpgen.Pcapng.Epb
use libpgen.PcapngStream
use libpgen.PcapngStream.Packets.{record_of}
use libpgen.PcapngStream.RoundTrip.{pcapng-IsCapture}
use libpgen.Stream.Packets.{put_packet, recv-put_packet}
use libpgen.Module.Rounds.{checking, check_round_cases}
use libpgen.Packet.Analyze.{analyze_total}
use libpgen.Packet.Headers.{images}
use libpgen.Packet.Laws.{IsValid}
use libpgen.PcapStream.Laws as PcapLaws
use libpgen.Header.Ethernet.Laws as EthernetLaws
use libpgen.Header.Ipv4.Laws as Ipv4Laws
use libpgen.PcapStream.{PcapStream, new_header}
use libpgen.Tests.Data.{udp_bytes, udp_packet, udp_packet-IsValid, any_udp, any_ip, any_ethernet}
use libpgen.Tests.Packets.{udp_bytes-AllReadable}

abbrev handle : PcapStream
handle = record { file = record { fd = none }; file_header = new_header }

-- The packet object that has read the UDP packet.
analyzed : (p' : Packet) × (analyze udp_bytes (length udp_bytes) udp_packet ≡ ok tt p')
analyzed =
    let a = analyze_total udp_bytes udp_packet (omega arith) (omega arith) udp_packet-IsValid (
      udp_bytes-AllReadable (EthernetLaws.cleared any_ethernet) (Ipv4Laws.cleared any_ip)
        any_udp) in
    (a.0, a.1)

check_round_cases_example :
    let p' = analyzed.0 in
    let own = images p'.headers ++ drop (header_length_of p'.headers) udp_bytes in
    let run =
      check_round true
        (checking new_header [] (PcapLaws.record_of udp_bytes ++ []) udp_packet [] []) in
    let next = checking new_header ([] ++ PcapLaws.record_of udp_bytes) [] in
    (q : Packet) × IsValid q
    × (q.headers ≡ p'.headers)
    × (length own ≡ length udp_bytes)
    × (((own ≡ udp_bytes) × (run ≡ ok tt (next q (successed ∷ []) [])))
        ⊎ ((own ≢ udp_bytes) × (run ≡ ok tt (next q (binary_error ∷ []) (udp_bytes ∷ [])))))
check_round_cases_example =
    check_round_cases new_header udp_bytes [] [] udp_packet analyzed.0 [] [] true udp_packet-IsValid
      (omega arith) (record { some_bytes = omega arith; small = omega arith }) (omega arith)
      analyzed.1

abbrev state : Checking
state = record { handle = handle; pack = udp_packet; outcomes = []; called = [] }

check_total_example : ¬ (check 3 (some (file_at [] (1 ∷ 2 ∷ []) 0)) false state ≡ ok none state)
check_total_example =
    check_total 3 (some (file_at [] (1 ∷ 2 ∷ []) 0)) false state state (omega arith)

abbrev fresh : Memory
fresh = replicate 1000 0

fresh-length : length fresh ≡ 1000
fresh-length = length-replicate {A = ℕ} 1000 0

recv-put_packet_example :
    (p' p'' : Packet) × (analyze udp_bytes (length udp_bytes) udp_packet ≡ ok tt p')
    × (compile p' ≡ ok tt p'')
    × (put_packet PcapngStream.send p'' (stream (file_at [] [] 200))
        ≡ ok tt (stream (advance (record_of udp_bytes) (file_at [] [] 200))))
    × (PcapngStream.recv fresh 100 (stream (file_at [] (record_of udp_bytes ++ []) 0))
        ≡ ok udp_bytes (stream (file_at ([] ++ record_of udp_bytes) [] 0)))
unfolding Epb.set_packet Epb.construct
recv-put_packet_example =
    recv-put_packet (pcapng-IsCapture fresh fresh-length) udp_bytes [] [] udp_packet
      (file_at [] [] 200) 0 100 (omega arith) (omega arith) udp_packet-IsValid
      (udp_bytes-AllReadable (EthernetLaws.cleared any_ethernet) (Ipv4Laws.cleared any_ip) any_udp)
      (omega arith) (omega arith) (omega arith)
