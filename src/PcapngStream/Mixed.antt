-- ===== src/PcapngStream/Mixed.antt =====
-- `recv` in a pcapng file where sections and interfaces stand between the packets.
use libpgen.Base.{
  ℕ, suc, ◌+◌, ◌-◌, ◌≤◌, ◌≡◌, refl, sym, ap, ap₂, ◌∙◌, List, [], ◌∷◌, ◌++◌, append_assoc,
  append-nil, arith, length, length-append, All,
}
use libpgen.Base.Run.{ok, pure, >>=-ok, ◌>>=◌}
use libpgen.FileStream.Laws.{stream, file_at}
use libpgen.Layout.{Memory}
use libpgen.Pcapng.{Block}
use libpgen.Pcapng.Bodies.{shb_contract, idb_contract}
use libpgen.Pcapng.Idb.{Idb}
use libpgen.Pcapng.Laws.{IsBlock}
use libpgen.Pcapng.Shb.{Shb}
use libpgen.PcapngStream.{recv, recv_loop, recv_round, given}
use libpgen.PcapngStream.Blocks.{block_bytes, length-block_bytes}
use libpgen.PcapngStream.Packets.{record_of}
use libpgen.PcapngStream.RoundTrip.{FitsBuffer, recv_loop_sent}
use libpgen.PcapngStream.Rounds.{recv_round_other}
use libpgen.Stream.Capture.{recv_each}

-- A block that is no packet, with the options that it carries.
pub data Between : Type 0 where
  section : Block Shb → Between
  interface : Block Idb → Between

-- Its bytes, and when they are a block that `tmp_buffer` takes.
abbrev pub bytes_of : Between → List ℕ
bytes_of (section b) = block_bytes shb_contract b
bytes_of (interface b) = block_bytes idb_contract b

abbrev pub IsRight : Between → Type 0
IsRight (section b) = IsBlock shb_contract b × (b.total_length ≤ 1000)
IsRight (interface b) = IsBlock idb_contract b × (b.total_length ≤ 1000)

abbrev pub blocks : List Between → List ℕ
blocks [] = []
blocks (x ∷ xs) = bytes_of x ++ blocks xs

passes :
    (x : Between) (rest passed : List ℕ) (room bufferlen n : ℕ) (tmp : Memory)
    → IsRight x
    → length tmp ≡ 1000
    → recv_loop (suc n) tmp bufferlen (stream (file_at passed (bytes_of x ++ rest) room))
      ≡ recv_loop n tmp bufferlen (stream (file_at (passed ++ bytes_of x) rest room))
unfolding recv_loop
passes (section b) rest passed room bufferlen n tmp (v, fits) full =
    >>=-ok (recv_round tmp bufferlen) _
      (stream (file_at passed (bytes_of (section b) ++ rest) room))
      (recv_round_other shb_contract b rest passed room bufferlen tmp v (omega arith) refl refl
        (omega arith) (omega (arith, fits, full)))
passes (interface b) rest passed room bufferlen n tmp (v, fits) full =
    >>=-ok (recv_round tmp bufferlen) _
      (stream (file_at passed (bytes_of (interface b) ++ rest) room))
      (recv_round_other idb_contract b rest passed room bufferlen tmp v (omega arith) refl refl
        (omega arith) (omega (arith, fits, full)))

-- A block has bytes, so a file has more bytes than blocks.
bytes_of-length : (x : Between) → IsRight x → 1 ≤ length (bytes_of x)
bytes_of-length (section b) (v, fits) = omega (arith, length-block_bytes shb_contract b v, v.total)
bytes_of-length (interface b) (v, fits) =
    omega (arith, length-block_bytes idb_contract b v, v.total)

blocks-length : (xs : List Between) → All IsRight xs → length xs ≤ length (blocks xs)
blocks-length [] vs = omega arith
blocks-length (x ∷ xs) (v, vs) =
    omega (arith, length-append (bytes_of x) (blocks xs), bytes_of-length x v, blocks-length xs vs)

recv_loop-blocks :
    (xs : List Between) (rest passed : List ℕ) (room bufferlen n : ℕ) (tmp : Memory)
    → All IsRight xs
    → length tmp ≡ 1000
    → recv_loop (length xs + n) tmp bufferlen (stream (file_at passed (blocks xs ++ rest) room))
      ≡ recv_loop n tmp bufferlen (stream (file_at (passed ++ blocks xs) rest room))
recv_loop-blocks [] rest passed room bufferlen n tmp vs full =
    let same : 0 + n ≡ n = omega arith in
    ap₂ (λ (k : ℕ) (ys : List ℕ). recv_loop k tmp bufferlen (stream (file_at ys rest room))) same
      (sym (append-nil passed))
recv_loop-blocks (x ∷ xs) rest passed room bufferlen n tmp (v, vs) full =
    let same : suc (length xs) + n ≡ suc (length xs + n) = omega arith in
    ap₂ (λ (k : ℕ) (ys : List ℕ). recv_loop k tmp bufferlen (stream (file_at passed ys room))) same
      (append_assoc (bytes_of x) (blocks xs) rest)
    ∙ passes x (blocks xs ++ rest) passed room bufferlen (length xs + n) tmp v full
    ∙ recv_loop-blocks xs rest (passed ++ bytes_of x) room bufferlen n tmp vs full
    ∙ ap (λ (ys : List ℕ). recv_loop n tmp bufferlen (stream (file_at ys rest room)))
        (append_assoc passed (bytes_of x) (blocks xs))

-- `recv` goes on to the next packet, however many blocks that are none stand before it.
recv-blocks :
    (xs : List Between) (p rest passed : List ℕ) (room bufferlen : ℕ) (tmp : Memory)
    → All IsRight xs
    → FitsBuffer p
    → length p ≤ bufferlen
    → length tmp ≡ 1000
    → recv tmp bufferlen (stream (file_at passed (blocks xs ++ (record_of p ++ rest)) room))
      ≡ ok p (stream (file_at ((passed ++ blocks xs) ++ record_of p) rest room))
unfolding recv
recv-blocks xs p rest passed room bufferlen tmp vs fits l full =
    let ahead = blocks xs ++ (record_of p ++ rest) in
    let s = stream (file_at passed ahead room) in
    let n = length ahead - length xs in
    let rounds : suc (length ahead) ≡ length xs + suc n =
      omega (arith, length-append (blocks xs) (record_of p ++ rest), blocks-length xs vs) in
    >>=-ok (recv_loop (suc (length ahead)) tmp bufferlen) given s (
      ap (λ (k : ℕ). recv_loop k tmp bufferlen s) rounds
      ∙ recv_loop-blocks xs (record_of p ++ rest) passed room bufferlen (suc n) tmp vs full
      ∙ recv_loop_sent n tmp p rest (passed ++ blocks xs) room bufferlen fits l full)

-- A packet and the blocks before it.
pub record Item : Type 0 where
  pub before : List Between
  pub packet : List ℕ

abbrev pub packets : List Item → List (List ℕ)
packets [] = []
packets (x ∷ xs) = x.packet ∷ packets xs

abbrev pub items : List Item → List ℕ
items [] = []
items (x ∷ xs) = blocks x.before ++ (record_of x.packet ++ items xs)

-- Every packet of a file whose packet blocks are as `send` writes them, with no options, is received in
-- its turn, whatever sections and interfaces, with options or without, stand before it, and whatever
-- stands behind the last: as many calls of `recv` as there are packets return them in order. A packet
-- has at most 968 bytes and no more than the caller's buffer, and each of the blocks between them has at
-- most 1000.
pub recv_each-mixed :
    (xs : List Item) (rest passed : List ℕ) (room bufferlen : ℕ) (tmp : Memory)
    → All (λ x. All IsRight x.before) xs
    → All (λ x. FitsBuffer x.packet) xs
    → All (λ x. length x.packet ≤ bufferlen) xs
    → length tmp ≡ 1000
    → recv_each (recv tmp bufferlen) (length xs) (stream (file_at passed (items xs ++ rest) room))
      ≡ ok (packets xs) (stream (file_at (passed ++ items xs) rest room))
recv_each-mixed [] rest passed room bufferlen tmp v f l full =
    ap (λ ys. ok [] (stream (file_at ys rest room))) (sym (append-nil passed))
recv_each-mixed (x ∷ xs) rest passed room bufferlen tmp (v, vs) (f, fs) (l, ls) full =
    let next = recv tmp bufferlen in
    let more = items xs in
    let passed' = (passed ++ blocks x.before) ++ record_of x.packet in
    ap (λ ys. recv_each next (suc (length xs)) (stream (file_at passed ys room)))
      (append_assoc (blocks x.before) (record_of x.packet ++ more) rest
        ∙ ap (λ ys. blocks x.before ++ ys) (append_assoc (record_of x.packet) more rest))
    ∙ >>=-ok next (λ q. recv_each next (length xs) >>= λ qs. pure (q ∷ qs))
        (stream (file_at passed (blocks x.before ++ (record_of x.packet ++ (more ++ rest))) room))
        (recv-blocks x.before x.packet (more ++ rest) passed room bufferlen tmp v f l full)
    ∙ >>=-ok (recv_each next (length xs)) (λ qs. pure (x.packet ∷ qs))
        (stream (file_at passed' (more ++ rest) room))
        (recv_each-mixed xs rest passed' room bufferlen tmp vs fs ls full)
    ∙ ap (λ ys. ok (x.packet ∷ packets xs) (stream (file_at ys rest room)))
        (append_assoc (passed ++ blocks x.before) (record_of x.packet) more
          ∙ append_assoc passed (blocks x.before) (record_of x.packet ++ more))
