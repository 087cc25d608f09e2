-- ===== src/PcapStream/RoundTrip.antt =====
-- A whole capture file: written packet by packet, and read back.
use libpgen.Base.{
  ℕ, ◌+◌, ◌-◌, ◌≤◌, ◌≡◌, refl, sym, ap, ◌∙◌, List, [], ◌++◌, Option, some, true, arith, length,
  append-nil, All,
}
use libpgen.Base.Run.{ok, throw, member-throw, >>=-ok, ◌>>◌}
use libpgen.FileStream
use libpgen.FileStream.{File, FileStream, advance}
use libpgen.FileStream.Laws.{write_nil, feof_lem, file_at, advance-advance}
use libpgen.Stream.Capture.{IsCapture, send_each, recv_each, records, send_each_lem, recv_each_lem}
use libpgen.PcapStream.{
  PcapStream, PcapFileHeader, pcap_packet_header, pcap_file_header, header_of, new_header, on_file,
  open_stream, pcap_read, pcap_write, send, recv,
}
use libpgen.PcapStream.Laws.{opened, record_of, IsSendable, write-ok, read-ok, send_lem, recv_lem}

-- `pcap_stream` keeps the promise, whatever its file header says.
pub pcap-IsCapture :
    (h : PcapFileHeader) → IsCapture send recv IsSendable record_of (λ f. opened f h)
pcap-IsCapture h = record {
  send_record = λ p f v r. send_lem p f h v (omega (arith, r));
  recv_record = λ p rest passed room buflen v l. recv_lem p rest passed room buflen h v l;
}

-- A new file that takes `room` bytes, and the file of `bytes` opened to read.
abbrev pub new_file : ℕ → Option File
new_file room = some (record { passed = []; ahead = []; room = room })

abbrev pub file_of : List ℕ → Option File
file_of bytes = some (record { passed = []; ahead = bytes; room = 0 })

abbrev pub file_bytes : List (List ℕ) → List ℕ
file_bytes ps = pcap_file_header.put new_header ++ records record_of ps

open_write :
    (room : ℕ) (s : PcapStream)
    → 24 ≤ room
    → open_stream (new_file room) pcap_write s
      ≡ ok tt (
          opened
            (advance
              (pcap_file_header.put new_header)
              (record { passed = []; ahead = []; room = room }))
            new_header)
unfolding open_stream FileStream.fopen
open_write room s r =
    write-ok (pcap_file_header.put new_header) (record { passed = []; ahead = []; room = room })
      new_header (omega arith) r

pub open_read :
    (rest : List ℕ) (s : PcapStream)
    → open_stream (file_of (pcap_file_header.put new_header ++ rest)) pcap_read s
      ≡ ok tt (
          opened
            (record { passed = pcap_file_header.put new_header; ahead = rest; room = 0 })
            new_header)
unfolding open_stream FileStream.fopen
open_read rest s =
    let f : File = record {
      passed = [];
      ahead = pcap_file_header.put new_header ++ rest;
      room = 0;
    } in
    >>=-ok (on_file (FileStream.read 24)) _ (opened f s.file_header)
      (read-ok 24 f s.file_header (omega arith) (omega arith))

write_file :
    (ps : List (List ℕ)) (room : ℕ) (s : PcapStream)
    → All IsSendable ps
    → 24 + length (records record_of ps) ≤ room
    → (open_stream (new_file room) pcap_write >> send_each send ps) s
      ≡ ok tt (
          opened
            (record { passed = file_bytes ps; ahead = []; room = room - length (file_bytes ps) })
            new_header)
write_file ps room s v r =
    let head = pcap_file_header.put new_header in
    let f : File = record { passed = []; ahead = []; room = room } in
    >>=-ok (open_stream (new_file room) pcap_write) (λ _. send_each send ps) s
      (open_write room s (omega (arith, r)))
    ∙ send_each_lem (pcap-IsCapture new_header) ps (advance head f) v (omega (arith, r))
    ∙ ap (λ g. ok tt (opened g new_header)) (advance-advance head (records record_of ps) f)

read_file :
    (ps : List (List ℕ)) (buflen : ℕ) (s : PcapStream)
    → All IsSendable ps
    → All (λ p. length p ≤ buflen) ps
    → (open_stream (file_of (file_bytes ps)) pcap_read >> recv_each (recv buflen) (length ps)) s
      ≡ ok ps (opened (record { passed = file_bytes ps; ahead = []; room = 0 }) new_header)
read_file ps buflen s v l =
    >>=-ok (open_stream (file_of (file_bytes ps)) pcap_read)
      (λ _. recv_each (recv buflen) (length ps)) s (open_read (records record_of ps) s)
    ∙ (ap
          (λ xs.
            recv_each (recv buflen) (length ps)
              (opened (file_at (pcap_file_header.put new_header) xs 0) new_header))
          (sym (append-nil (records record_of ps)))
        ∙ recv_each_lem (pcap-IsCapture new_header) ps [] (pcap_file_header.put new_header) 0 buflen
            v l)

-- Packets of one byte or more, sent one after the other into a new file that takes them, leave the
-- file's bytes; a stream that opens these bytes to read, and receives as many packets into a buffer as
-- long as the longest or longer, gets the packets in order, and then stands at the end of the file.
pub recv_each-send_each :
    (ps : List (List ℕ)) (room buflen : ℕ) (s t : PcapStream)
    → All IsSendable ps
    → All (λ p. length p ≤ buflen) ps
    → 24 + length (records record_of ps) ≤ room
    → (bytes : List ℕ) × (written : PcapStream) × (done : PcapStream) × ((open_stream
              (new_file room)
              pcap_write
            >> send_each send ps)
          s
        ≡ ok tt written)
      × (written.file.fd ≡ some (record { passed = bytes; ahead = []; room = room - length bytes }))
      × ((open_stream (file_of bytes) pcap_read >> recv_each (recv buflen) (length ps)) t
          ≡ ok ps done)
      × (FileStream.feof done.file ≡ ok true done.file)
recv_each-send_each ps room buflen s t v l r = (
  file_bytes ps,
  _,
  _,
  write_file ps room s v r,
  refl,
  read_file ps buflen t v l,
  feof_lem (file_bytes ps) [] 0,
)

-- An empty packet: `send` writes the packet header and throws, so a record with no packet that
-- `recv` can read stays in the file.
pub send_empty :
    (f : File) (h : PcapFileHeader)
    → 16 ≤ f.room
    → send [] (opened f h)
      ≡ throw "pgen::file_stream::fwirte::fwite: " (opened (advance (record_of []) f) h)
unfolding send
send_empty f h r =
    let head = pcap_packet_header.put (header_of 0) in
    >>=-ok (on_file (FileStream.write head)) _ (opened f h) (write-ok head f h (omega arith) r)
    ∙ member-throw (λ s. s.file) (λ t s. record s { file = t }) (FileStream.write [])
        (opened (advance head f) h) (write_nil (advance head f))
