-- ===== src/PcapngStream/RoundTrip.antt =====
-- A whole pcapng file: written packet by packet, and read back.
use libpgen.Base.{
  ℕ, suc, ◌+◌, ◌-◌, ◌≤◌, ◌≡◌, refl, sym, ap, ◌∙◌, List, [], ◌∷◌, ◌++◌, append-nil, some, arith,
  length, length-append, All,
}
use libpgen.Base.Run.{ok, throw, pure, >>=-ok, >>=-throw, ◌>>=◌, ◌>>◌}
use libpgen.FileStream
use libpgen.FileStream.{File, FileStream, advance}
use libpgen.FileStream.Laws.{stream, file_at, advance-advance}
use libpgen.Layout.{Memory}
use libpgen.Stream.{pcapng_write, pcapng_read}
use libpgen.Stream.Capture.{IsCapture, send_each, recv_each, records, send_each_lem, recv_each_lem}
use libpgen.PcapngStream.{open_stream, send, recv, recv_loop, recv_round, given}
use libpgen.PcapngStream.Packets.{record_of, send_lem, recv_round_sent}
use libpgen.PcapngStream.Opening.{
  opening, length-opening, open_write, recv_loop-opening, recv_loop_end,
}

-- The packets whose block `tmp_buffer` takes.
abbrev pub FitsBuffer : List ℕ → Type 0
FitsBuffer p = length p ≤ 968

pub recv_loop_sent :
    (n : ℕ) (tmp : Memory) (p rest passed : List ℕ) (room bufferlen : ℕ)
    → FitsBuffer p
    → length p ≤ bufferlen
    → length tmp ≡ 1000
    → recv_loop (suc n) tmp bufferlen (stream (file_at passed (record_of p ++ rest) room))
      ≡ ok (some p) (stream (file_at (passed ++ record_of p) rest room))
unfolding recv_loop
recv_loop_sent n tmp p rest passed room bufferlen small l full =
    >>=-ok (recv_round tmp bufferlen) _ (stream (file_at passed (record_of p ++ rest) room))
      (recv_round_sent p rest passed room bufferlen tmp small l full)

-- `pcapng_stream` keeps the promise of a stream over a capture file for packets of at most 968 bytes,
-- the empty one included, whatever bytes `tmp_buffer` of `recv` begins with.
pub pcapng-IsCapture :
    (tmp : Memory) → length tmp ≡ 1000 → IsCapture send (recv tmp) FitsBuffer record_of stream
unfolding recv
pcapng-IsCapture tmp full = record {
  send_record = λ p f v r. send_lem p f (omega (arith, v)) r;
  recv_record = λ p rest passed room buflen v l.
      let s = stream (file_at passed (record_of p ++ rest) room) in
      >>=-ok (recv_loop (suc (length (record_of p ++ rest))) tmp buflen) given s
        (recv_loop_sent (length (record_of p ++ rest)) tmp p rest passed room buflen v l full);
}

-- What the file holds when the packets have been sent.
abbrev pub file_bytes : List (List ℕ) → List ℕ
file_bytes ps = opening ++ records record_of ps

write_file :
    (ps : List (List ℕ)) (tmp : Memory) (room : ℕ) (s : FileStream)
    → length tmp ≡ 1000
    → All FitsBuffer ps
    → 48 + length (records record_of ps) ≤ room
    → (open_stream tmp (some (file_at [] [] room)) pcapng_write >> send_each send ps) s
      ≡ ok tt (stream (file_at (file_bytes ps) [] (room - length (file_bytes ps))))
write_file ps tmp room s full v r =
    let f = file_at [] [] room in
    >>=-ok (open_stream tmp (some f) pcapng_write) (λ _. send_each send ps) s
      (open_write tmp f s full (omega (arith, r)))
    ∙ send_each_lem (pcapng-IsCapture tmp full) ps (advance opening f) v
        (omega (arith, r, length-opening))
    ∙ ap (λ g. ok tt (stream g)) (advance-advance opening (records record_of ps) f)

-- The first `recv` of a file passes over the two blocks that `open` wrote.
recv-opening :
    (xs : List ℕ) (tmp : Memory) (bufferlen : ℕ)
    → length tmp ≡ 1000
    → recv tmp bufferlen (stream (file_at [] (opening ++ xs) 0))
      ≡ (recv_loop (suc (46 + length xs)) tmp bufferlen >>= given) (stream (file_at opening xs 0))
unfolding recv
recv-opening xs tmp bufferlen full =
    let s = stream (file_at [] (opening ++ xs) 0) in
    let n = suc (46 + length xs) in
    ap (λ (k : ℕ). (recv_loop k tmp bufferlen >>= given) s) {x = suc (length (opening ++ xs))}
      {y = suc (suc n)} (omega (arith, length-append opening xs, length-opening))
    ∙ ap (λ r. ((λ _. r) >>= given) s) (recv_loop-opening n tmp bufferlen xs [] 0 full)

recv_each-opening :
    (ps : List (List ℕ)) (tmp : Memory) (bufferlen : ℕ)
    → length tmp ≡ 1000
    → All FitsBuffer ps
    → All (λ p. length p ≤ bufferlen) ps
    → (s : FileStream) × (s' : FileStream) × (recv_each
          (recv tmp bufferlen)
          (length ps)
          (stream (file_at [] (file_bytes ps) 0))
        ≡ ok ps s)
      × (recv tmp bufferlen s ≡ throw "pgen::pcapng_stream::recv: is end of file" s')
unfolding recv
recv_each-opening [] tmp bufferlen full v l = (
  _,
  _,
  refl,
  recv-opening [] tmp bufferlen full
      ∙ >>=-throw (recv_loop 47 tmp bufferlen) given (stream (file_at opening [] 0))
          (recv_loop_end 46 tmp bufferlen opening 0),
)
recv_each-opening (p ∷ ps) tmp bufferlen full (v, vs) (l, ls) =
    let others = records record_of ps in
    let next = recv_each (recv tmp bufferlen) (length ps) in
    let passed = opening ++ record_of p in
    let s = stream (file_at (passed ++ others) [] 0) in
    let start = stream (file_at [] (file_bytes (p ∷ ps)) 0) in
    (
      s,
      s,
      >>=-ok (recv tmp bufferlen) (λ q. next >>= λ qs. pure (q ∷ qs)) start
            (recv-opening (record_of p ++ others) tmp bufferlen full
              ∙ >>=-ok (recv_loop (suc (46 + length (record_of p ++ others))) tmp bufferlen) given
                  (stream (file_at opening (record_of p ++ others) 0))
                  (recv_loop_sent (46 + length (record_of p ++ others)) tmp p others opening 0
                    bufferlen v l full))
          ∙ >>=-ok next (λ qs. pure (p ∷ qs)) (stream (file_at passed others 0))
              (ap (λ xs. next (stream (file_at passed xs 0))) (sym (append-nil others))
                ∙ recv_each_lem (pcapng-IsCapture tmp full) ps [] passed 0 bufferlen vs ls),
      >>=-throw (recv_loop 1 tmp bufferlen) given s
          (recv_loop_end 0 tmp bufferlen (passed ++ others) 0),
    )

-- Packets of at most 968 bytes, empty ones too, sent one after the other into a new pcapng file that
-- takes them, leave the file's bytes; a stream that opens these bytes to read, and receives as many
-- packets into a buffer as long as the longest or longer, gets the packets in order, and the next
-- `recv` throws the exception for the end of the file. The buffers `tmp_buffer` of the two streams may
-- begin with any 1000 bytes.
pub recv_each-send_each_pcapng :
    (ps : List (List ℕ)) (tmp tmp' : Memory) (room bufferlen : ℕ) (s t : FileStream)
    → length tmp ≡ 1000
    → length tmp' ≡ 1000
    → All FitsBuffer ps
    → All (λ p. length p ≤ bufferlen) ps
    → 48 + length (records record_of ps) ≤ room
    → (bytes : List ℕ) × (done : FileStream) × (end : FileStream) × ((open_stream tmp
              (some (file_at [] [] room))
              pcapng_write
            >> send_each send ps)
          s
        ≡ ok tt (stream (file_at bytes [] (room - length bytes))))
      × ((open_stream tmp (some (file_at [] bytes 0)) pcapng_read
              >> recv_each (recv tmp' bufferlen) (length ps))
            t
          ≡ ok ps done)
      × (recv tmp' bufferlen done ≡ throw "pgen::pcapng_stream::recv: is end of file" end)
unfolding open_stream FileStream.fopen
recv_each-send_each_pcapng ps tmp tmp' room bufferlen s t full full' v l r =
    let (done, end, got, after) = recv_each-opening ps tmp' bufferlen full' v l in
    (file_bytes ps, done, end, write_file ps tmp room s full v r, got, after)
