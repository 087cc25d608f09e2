-- ===== src/PcapngStream/Rounds.antt =====
-- A round of `recv`: one block of the file, of any class.
use libpgen.Base.{
  ℕ, ◌+◌, ◌≤◌, ◌<◌, ◌≡◌, ap, ◌∙◌, List, [], ◌++◌, Option, none, some, arith, length, take, drop,
  ge→ltb, ◌==◌, false, length-append, if◌then◌else◌, length-drop, ==_iff, drop-drop, min,
}
use libpgen.Base.Run.{ok, raise, pure, >>=-ok, ◌>>=◌, Exec}
use libpgen.Base.Splice.{splice, length-splice}
use libpgen.FileStream
use libpgen.FileStream.{FileStream}
use libpgen.FileStream.Laws.{stream, feof_lem, not_zero, file_at}
use libpgen.Layout.{
  Memory, StandsAt-append, StandsAt-splice, cast-StandsAt, cast, fetch, within_bounds,
}
use libpgen.Pcapng.{
  Block, BlockHead, BodyOps, block_head, block_tail, enhanced_packet, simple_packet, read,
}
use libpgen.Pcapng.Epb
use libpgen.Pcapng.Epb.{Epb}
use libpgen.Pcapng.Contract.{Contract}
use libpgen.Pcapng.Laws.{head_bytes, IsBlock}
use libpgen.Pcapng.Bodies.{epb_contract, pad4_le}
use libpgen.PcapngStream.{
  read_block, detect_pcapng_blocktype, on_buffer, on_local, copy_packet, at_most, recv_round,
  Reading,
}
use libpgen.PcapngStream.Blocks.{
  on_local-ok, block_bytes, length-block_bytes, zeros, length-zeros, read_block-image,
  read_in_buffer,
}

on_buffer-ok :
    {A : Type 0} (tmp : Memory) (m : Exec Reading A) (s : FileStream) {a : A} {t : Reading}
    → m (record { file = s; buffer = tmp }) ≡ ok a t
    → on_buffer tmp m s ≡ ok (a, t.buffer) t.file
on_buffer-ok tmp m s e = rw (e, on_buffer)

-- What `recv` does with a block, once its type is known.
abbrev by_type : ℕ → Memory → ℕ → ℕ → Exec FileStream (Option (List ℕ))
by_type type mem total bufferlen =
    if type == enhanced_packet
    then (copy_packet mem total bufferlen >>= λ bytes. pure (some bytes))
    else if type == simple_packet
    then raise "pgen::pcapng_stream::recv: not implement"
    else pure none

module _ {B : Type 0} {ops : BodyOps B} {tag : ℕ} {IsValid : B → Type 0}
    {fill : B → List ℕ → List ℕ} {seen : B → List ℕ → B}
    (contract : Contract ops tag IsValid fill seen) (b : Block B) (v : IsBlock contract b)
    (t : tag < 4294967296) where
  detect_lem :
      {S : Type 0} (tmp : Memory) (s : S)
      → b.total_length ≤ length tmp
      → detect_pcapng_blocktype (splice 0 (block_bytes contract b) tmp) b.total_length s
        ≡ ok b.type s
  unfolding detect_pcapng_blocktype
  detect_lem tmp s r =
      let h : BlockHead = record { type = b.type; total_length = b.total_length } in
      let head = head_bytes b in
      let fill = fill b.body (zeros b) in
      let mem = splice 0 (block_bytes contract b) tmp in
      let all =
        StandsAt-splice (block_bytes contract b) tmp 0
          (omega (arith, length-block_bytes contract b v, r)) in
      let front =
        StandsAt-append ((head ++ fill) ++ b.option) (block_tail.put b.total_length) mem 0 all in
      let inner = StandsAt-append (head ++ fill) b.option mem 0 front.0 in
      let first = StandsAt-append head fill mem 0 inner.0 in
      rw (ge→ltb b.total_length 8 (omega (arith, v.total))) (
        >>=-ok (cast block_head mem 0) (λ p. pure p.type) s
          (cast-StandsAt block_head h mem 0 s (omega (arith, v.type, t), v.small) first.0))

  pub recv_round_lem :
      (rest passed : List ℕ) (room bufferlen : ℕ) (tmp : Memory)
      → 0 < ops.body_length b.body
      → b.total_length ≤ length tmp
      → let xs = block_bytes contract b in
        recv_round tmp bufferlen (stream (file_at passed (xs ++ rest) room))
        ≡ by_type b.type
            (splice 0 xs tmp)
            b.total_length
            bufferlen
            (stream (file_at (passed ++ xs) rest room))
  unfolding recv_round
  recv_round_lem rest passed room bufferlen tmp p r =
      let xs = block_bytes contract b in
      let s = stream (file_at passed (xs ++ rest) room) in
      let s' = stream (file_at (passed ++ xs) rest room) in
      let mem = splice 0 xs tmp in
      let long : 0 < length (xs ++ rest) =
        omega (arith, length-append xs rest, length-block_bytes contract b v, v.total) in
      >>=-ok FileStream.feof _ s (
        feof_lem passed (xs ++ rest) room
        ∙ ap (λ end. ok end s) (not_zero (length (xs ++ rest)) long))
      ∙ >>=-ok (on_buffer tmp read_block) _ s (
          on_buffer-ok tmp read_block s (
            read_block-image contract b v (zeros b) rest passed room tmp t p
              (length-zeros contract b v) r))
      ∙ >>=-ok (detect_pcapng_blocktype mem b.total_length) _ s' (detect_lem tmp s' r)

-- A block that is no packet is passed over.
pub recv_round_other :
    {B : Type 0} {ops : BodyOps B} {tag : ℕ} {IsValid : B → Type 0} {fill : B → List ℕ → List ℕ}
    {seen : B → List ℕ → B} (contract : Contract ops tag IsValid fill seen) (b : Block B)
    (rest passed : List ℕ) (room bufferlen : ℕ) (tmp : Memory)
    → IsBlock contract b
    → tag < 4294967296
    → (tag == enhanced_packet) ≡ false
    → (tag == simple_packet) ≡ false
    → 0 < ops.body_length b.body
    → b.total_length ≤ length tmp
    → let xs = block_bytes contract b in
      recv_round tmp bufferlen (stream (file_at passed (xs ++ rest) room))
      ≡ ok none (stream (file_at (passed ++ xs) rest room))
recv_round_other contract b rest passed room bufferlen tmp v t e f p r =
    recv_round_lem contract b v t rest passed room bufferlen tmp p r ∙ rw (v.type, e, f)

at_most_lem : (bufferlen n : ℕ) → at_most bufferlen n ≡ min bufferlen n
at_most_lem bufferlen n = ground arith

copy_packet_lem :
    (b : Block Epb) (bufferlen : ℕ) (tmp : Memory) (s : FileStream)
    → IsBlock epb_contract b
    → b.total_length ≤ length tmp
    → 28 + min bufferlen b.body.fields.packet_length ≤ length tmp
    → let mem = splice 0 (block_bytes epb_contract b) tmp in
      copy_packet mem b.total_length bufferlen s
      ≡ ok (take (min bufferlen b.body.fields.packet_length) (drop 28 mem)) s
copy_packet_lem b bufferlen tmp s v r enough =
    let mem = splice 0 (block_bytes epb_contract b) tmp in
    let n = min bufferlen b.body.fields.packet_length in
    let packet = drop 20 (drop 8 mem) in
    let least = at_most_lem bufferlen b.body.fields.packet_length in
    let same = drop-drop 8 20 mem in
    let long = length-splice 0 (block_bytes epb_contract b) tmp in
    >>=-ok (on_local (Epb.construct []) (read Epb.ops mem 0 b.total_length)) _ s (
      on_local-ok (Epb.construct []) (read Epb.ops mem 0 b.total_length) s
        (read_in_buffer epb_contract b v (Epb.construct []) tmp (omega arith) r))
    ∙ ap (λ (k : ℕ). fetch packet 0 k s) least
    ∙ within_bounds packet 0 n (take n (drop 0 packet)) s
        (omega (arith, length-drop 20 (drop 8 mem), length-drop 8 mem, long, enough))
    ∙ ap (λ ys. ok (take n ys) s) same

-- A round at an enhanced packet block returns as many bytes as it says that the packet has, or as the
-- caller's buffer takes, whichever is less, from where its packet stands in `tmp_buffer`: the captured
-- length does not count. The block, and these bytes behind its 28 bytes of heads, are within
-- `tmp_buffer`.
pub recv_round_packet :
    (b : Block Epb) (rest passed : List ℕ) (room bufferlen : ℕ) (tmp : Memory)
    → IsBlock epb_contract b
    → b.total_length ≤ length tmp
    → 28 + min bufferlen b.body.fields.packet_length ≤ length tmp
    → let xs = block_bytes epb_contract b in
      recv_round tmp bufferlen (stream (file_at passed (xs ++ rest) room))
      ≡ ok
          (some (take (min bufferlen b.body.fields.packet_length) (drop 28 (splice 0 xs tmp))))
          (stream (file_at (passed ++ xs) rest room))
recv_round_packet b rest passed room bufferlen tmp v r enough =
    let xs = block_bytes epb_contract b in
    let mem = splice 0 xs tmp in
    let n = min bufferlen b.body.fields.packet_length in
    let s' = stream (file_at (passed ++ xs) rest room) in
    recv_round_lem epb_contract b v (omega arith) rest passed room bufferlen tmp
      (omega (arith, pad4_le (20 + b.body.fields.capture_length))) r
    ∙ rw ((==_iff b.type enhanced_packet).1 v.type) (
        >>=-ok (copy_packet mem b.total_length bufferlen) (λ bytes. pure (some bytes)) s'
          (copy_packet_lem b bufferlen tmp s' v r enough))
