-- ===== src/PcapStream/Laws.antt =====
-- A file that `pcap_stream` writes, and what it reads back of it.
use libpgen.Base.{
  ℕ, ◌+◌, ◌≤◌, ◌<◌, ◌≡◌, refl, ap, ap₂, ◌∙◌, List, [], ◌++◌, arith, length, take, append_assoc,
  length-append, take-append, drop-append, ltb, ge→ltb,
}
use libpgen.Base.Run.{Exec, ok, member-ok, >>=-ok, throw_if, ◌>>◌}
use libpgen.FileStream
use libpgen.FileStream.{File, FileStream, advance, skip}
use libpgen.FileStream.Laws.{stream, write_lem, read_lem, advance-advance}
use libpgen.PcapStream.{
  PcapStream, PcapFileHeader, pcap_packet_header, header_of, on_file, send, recv,
}

-- A stream with an open file.
abbrev pub opened : File → PcapFileHeader → PcapStream
opened f h = record { file = stream f; file_header = h }

-- A packet as it stands in the file.
abbrev pub record_of : List ℕ → List ℕ
record_of buf = pcap_packet_header.put (header_of (length buf)) ++ buf

-- The lengths that `send` can write down: not zero, and below 2^32.
pub record IsSendable (buf : List ℕ) : Type 0 where
  pub some_bytes : 0 < length buf
  pub small : length buf < 4294967296

pub write-ok :
    (buf : List ℕ) (f : File) (h : PcapFileHeader)
    → 0 < length buf
    → length buf ≤ f.room
    → on_file (FileStream.write buf) (opened f h) ≡ ok tt (opened (advance buf f) h)
write-ok buf f h n r =
    member-ok (λ s. s.file) (λ t s. record s { file = t }) (FileStream.write buf) (opened f h)
      (write_lem buf f n r)

pub read-ok :
    (n : ℕ) (f : File) (h : PcapFileHeader)
    → 0 < n
    → n ≤ length f.ahead
    → on_file (FileStream.read n) (opened f h) ≡ ok (take n f.ahead) (opened (skip n f) h)
read-ok n f h p l =
    member-ok (λ s. s.file) (λ t s. record s { file = t }) (FileStream.read n) (opened f h)
      (read_lem n f p l)

-- `send` of a packet appends its record, if the device takes it.
pub send_lem :
    (buf : List ℕ) (f : File) (h : PcapFileHeader)
    → IsSendable buf
    → 16 + length buf ≤ f.room
    → send buf (opened f h) ≡ ok tt (opened (advance (record_of buf) f) h)
unfolding send
send_lem buf f h v r =
    let head = pcap_packet_header.put (header_of (length buf)) in
    >>=-ok (on_file (FileStream.write head)) _ (opened f h)
      (write-ok head f h (omega arith) (omega (arith, r)))
    ∙ write-ok buf (advance head f) h v.some_bytes (omega (arith, r))
    ∙ ap (λ g. ok tt (opened g h)) (advance-advance head buf f)

-- What `recv` does once it knows the length.
abbrev recv_content : ℕ → ℕ → Exec PcapStream (List ℕ)
recv_content buflen len =
    throw_if (ltb buflen len) "pgen::pcap_stream::recv: buffer length is too small"
    >> on_file (FileStream.read len)

original_len-header_of :
    (n : ℕ) (rest : List ℕ)
    → n < 4294967296
    → (pcap_packet_header.view (pcap_packet_header.put (header_of n) ++ rest)).original_len ≡ n
original_len-header_of n rest h = omega (arith, h)

-- `recv` into a buffer that is long enough takes one record off a file and returns its packet.
pub recv_lem :
    (buf rest passed : List ℕ) (room buflen : ℕ) (h : PcapFileHeader)
    → IsSendable buf
    → length buf ≤ buflen
    → recv buflen
        (opened (record { passed = passed; ahead = record_of buf ++ rest; room = room }) h)
      ≡ ok buf (opened (record { passed = passed ++ record_of buf; ahead = rest; room = room }) h)
unfolding recv
recv_lem buf rest passed room buflen h v l =
    let n = length buf in
    let head = pcap_packet_header.put (header_of n) in
    let f : File = record { passed = passed; ahead = record_of buf ++ rest; room = room } in
    let g : File = record { passed = passed ++ head; ahead = buf ++ rest; room = room } in
    let total = length-append buf rest in
    >>=-ok (on_file (FileStream.read 16)) _ (opened f h)
      (read-ok 16 f h (omega arith) (omega arith))
    ∙ ap (λ (k : ℕ). recv_content buflen k (opened g h)) (original_len-header_of n [] v.small)
    ∙ rw (ge→ltb buflen n l) (read-ok n g h v.some_bytes (omega (arith, total)))
    ∙ ap₂
        (λ xs ys.
          ok xs (opened (record { passed = (passed ++ head) ++ xs; ahead = ys; room = room }) h))
        (take-append buf rest n refl) (drop-append buf rest n refl)
    ∙ ap (λ xs. ok buf (opened (record { passed = xs; ahead = rest; room = room }) h))
        (append_assoc passed head buf)
