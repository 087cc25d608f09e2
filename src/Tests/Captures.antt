-- ===== src/Tests/Captures.antt =====
-- A capture file of two packets.
use libpgen.Base.{ℕ, ◌-◌, ◌≡◌, List, [], ◌∷◌, none, some, true, arith, length}
use libpgen.Base.Run.{ok, ◌>>◌}
use libpgen.FileStream
use libpgen.FileStream.{File}
use libpgen.PcapStream.{recv, PcapStream, open_stream, pcap_read, pcap_write, new_header, send}
use libpgen.Stream.Capture.{send_each, recv_each}
use libpgen.PcapStream.RoundTrip.{new_file, file_of, recv_each-send_each}
use libpgen.FileStream.{advance}

abbrev two_packets : List (List ℕ)
two_packets = (1 ∷ 2 ∷ 3 ∷ []) ∷ (4 ∷ []) ∷ []

abbrev closed : PcapStream
closed = record { file = record { fd = none }; file_header = new_header }

recv_each-send_each_example :
    (bytes : List ℕ) × (written : PcapStream) × (done : PcapStream) × ((open_stream
            (new_file 100)
            pcap_write
          >> send_each send two_packets)
        closed
      ≡ ok tt written)
    × (written.file.fd ≡ some (record { passed = bytes; ahead = []; room = 100 - length bytes }))
    × ((open_stream (file_of bytes) pcap_read >> recv_each (recv 10) 2) closed
        ≡ ok two_packets done)
    × (FileStream.feof done.file ≡ ok true done.file)
recv_each-send_each_example =
    recv_each-send_each two_packets 100 10 closed closed
      (
        record { some_bytes = omega arith; small = omega arith },
        (record { some_bytes = omega arith; small = omega arith }, tt),
      )
      (omega arith) (omega arith)

abbrev empty_file : File
empty_file = record { passed = []; ahead = []; room = 50 }
