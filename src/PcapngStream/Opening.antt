-- ===== src/PcapngStream/Opening.antt =====
-- The two blocks that `open` writes, and how `recv` passes over them.
use libpgen.Base.{
  ℕ, suc, ◌≤◌, ◌≡◌, refl, sym, ap, ◌∙◌, List, [], ◌++◌, append_assoc, some, arith, length, drop,
  length-drop,
}
use libpgen.Base.Run.{ok, throw, pure, >>=-ok, >>=-throw}
use libpgen.Base.Splice.{splice, length-splice}
use libpgen.FileStream
use libpgen.FileStream.{File, FileStream, advance}
use libpgen.FileStream.Laws.{stream, file_at, write_lem, advance-advance, feof_lem}
use libpgen.Layout.{Memory, fetch, fetch-StandsAt, StandsAt-splice}
use libpgen.Pcapng.{Block, BodyOps, write}
use libpgen.Pcapng.Contract.{Contract}
use libpgen.Pcapng.Laws.{IsBlock, image, length-image, write_image_block}
use libpgen.Pcapng.Bodies.{shb_contract, idb_contract}
use libpgen.Pcapng.Shb
use libpgen.Pcapng.Idb
use libpgen.Pcapng.Shb.{Shb}
use libpgen.Pcapng.Idb.{Idb}
use libpgen.PcapngStream.{open_block, open_stream, on_local, recv_loop, recv_round}
use libpgen.PcapngStream.Blocks.{on_local-ok, block_bytes}
use libpgen.PcapngStream.Rounds.{recv_round_other}
use libpgen.Stream.{pcapng_write}

pub shb-IsBlock : IsBlock shb_contract Shb.construct
unfolding Shb.construct
shb-IsBlock = record {
  type = refl;
  body = (omega arith, (omega arith, (omega arith, (omega arith, omega arith))));
  total = refl;
  small = omega arith;
}

pub idb-IsBlock : IsBlock idb_contract Idb.construct
unfolding Idb.construct
idb-IsBlock = record {
  type = refl;
  body = (omega arith, (omega arith, omega arith));
  total = refl;
  small = omega arith;
}

open_block_lem :
    {B : Type 0} {ops : BodyOps B} {tag : ℕ} {IsValid : B → Type 0} {fill : B → List ℕ → List ℕ}
    {seen : B → List ℕ → B} (contract : Contract ops tag IsValid fill seen) (b : Block B)
    (tmp : Memory) (f : File)
    → IsBlock contract b
    → b.total_length ≤ 1000
    → length tmp ≡ 1000
    → b.total_length ≤ f.room
    → let xs = image contract b (drop 8 tmp) in
      open_block ops b tmp (stream f) ≡ ok (splice 0 xs tmp) (stream (advance xs f))
open_block_lem {ops = ops} contract b tmp f v small full r =
    let xs = image contract b (drop 8 tmp) in
    let long =
      length-image contract b (drop 8 tmp) v
        (omega (arith, length-drop 8 tmp, v.total, small, full)) in
    let mem = splice 0 xs tmp in
    >>=-ok (on_local tmp (write ops b 0 1000)) _ (stream f) (
      on_local-ok tmp (write ops b 0 1000) (stream f) (
        write_image_block contract b 0 1000 tmp v small (omega arith) (omega (arith, small, full))))
    ∙ >>=-ok (fetch mem 0 b.total_length) _ (stream f) (
        fetch-StandsAt xs mem 0 b.total_length (stream f) (sym long)
          (StandsAt-splice xs tmp 0 (omega (arith, long, small, full))))
    ∙ >>=-ok (FileStream.write xs) (λ _. pure mem) (stream f)
        (write_lem xs f (omega (arith, long, v.total)) (omega (arith, long, r)))

abbrev pub shb_bytes : List ℕ
shb_bytes = block_bytes shb_contract Shb.construct

abbrev pub idb_bytes : List ℕ
idb_bytes = block_bytes idb_contract Idb.construct

-- What `open` writes.
abbrev pub opening : List ℕ
opening = shb_bytes ++ idb_bytes

pub length-opening : length opening ≡ 48
unfolding Shb.construct Idb.construct
length-opening = refl

-- `open` to write.
pub open_write :
    (tmp : Memory) (f : File) (s : FileStream)
    → length tmp ≡ 1000
    → 48 ≤ f.room
    → open_stream tmp (some f) pcapng_write s ≡ ok tt (stream (advance opening f))
unfolding open_stream FileStream.fopen Shb.construct Idb.construct
open_write tmp f s full r =
    let tmp' = splice 0 shb_bytes tmp in
    let f' = advance shb_bytes f in
    >>=-ok (open_block Shb.ops Shb.construct tmp) _ (stream f) (
      open_block_lem shb_contract Shb.construct tmp f shb-IsBlock (omega arith) full
        (omega (arith, r)))
    ∙ >>=-ok (open_block Idb.ops Idb.construct tmp') _ (stream f') (
        open_block_lem idb_contract Idb.construct tmp' f' idb-IsBlock (omega arith)
          (omega (arith, length-splice 0 shb_bytes tmp, full)) (omega (arith, r)))
    ∙ ap (λ g. ok tt (stream g)) (advance-advance shb_bytes idb_bytes f)

-- `recv` at the front of the file passes over both in two rounds.
pub recv_loop-opening :
    (n : ℕ) (tmp : Memory) (bufferlen : ℕ) (rest passed : List ℕ) (room : ℕ)
    → length tmp ≡ 1000
    → recv_loop (suc (suc n)) tmp bufferlen (stream (file_at passed (opening ++ rest) room))
      ≡ recv_loop n tmp bufferlen (stream (file_at (passed ++ opening) rest room))
unfolding recv_loop Shb.construct Idb.construct
recv_loop-opening n tmp bufferlen rest passed room full =
    let s1 = stream (file_at passed (shb_bytes ++ (idb_bytes ++ rest)) room) in
    let s2 = stream (file_at (passed ++ shb_bytes) (idb_bytes ++ rest) room) in
    >>=-ok (recv_round tmp bufferlen) _ s1 (
      recv_round_other shb_contract Shb.construct (idb_bytes ++ rest) passed room bufferlen tmp
        shb-IsBlock (omega arith) refl refl (omega arith) (omega (arith, full)))
    ∙ >>=-ok (recv_round tmp bufferlen) _ s2 (
        recv_round_other idb_contract Idb.construct rest (passed ++ shb_bytes) room bufferlen tmp
          idb-IsBlock (omega arith) refl refl (omega arith) (omega (arith, full)))
    ∙ ap (λ xs. recv_loop n tmp bufferlen (stream (file_at xs rest room)))
        (append_assoc passed shb_bytes idb_bytes)

-- `recv` at the end of the file.
pub recv_loop_end :
    (n : ℕ) (tmp : Memory) (bufferlen : ℕ) (passed : List ℕ) (room : ℕ)
    → let s = stream (file_at passed [] room) in
      recv_loop (suc n) tmp bufferlen s ≡ throw "pgen::pcapng_stream::recv: is end of file" s
unfolding recv_loop recv_round
recv_loop_end n tmp bufferlen passed room =
    let s = stream (file_at passed [] room) in
    >>=-throw (recv_round tmp bufferlen) _ s (>>=-ok FileStream.feof _ s (feof_lem passed [] room))
