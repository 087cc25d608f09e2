-- ===== src/PcapngStream/Overflow.antt =====
-- A packet whose block is longer than `tmp_buffer` of `recv`.
use libpgen.Base.{
  ℕ, suc, ◌+◌, ◌≤◌, ◌<◌, ◌≡◌, refl, sym, ap, ◌∙◌, List, ◌++◌, append_assoc, arith, length,
  length-append, Bool-cases, inl, inr, leb, leb→le, leb→gt,
}
use libpgen.Base.Run.{Exec, ok, fault, member, member-fault, >>=-ok, >>=-fault}
use libpgen.Base.Splice.{splice, length-splice}
use libpgen.FileStream
use libpgen.FileStream.Laws.{stream, file_at, feof_lem, not_zero}
use libpgen.Layout.{Memory, store, store_fault}
use libpgen.Pcapng.{BlockHead, block_head}
use libpgen.PcapngStream.{
  Reading, read_into, body_room, read_block, on_buffer, recv_round, recv_loop, recv, given, send,
  packet_block,
}
use libpgen.PcapngStream.Packets.{
  IsSendable, record_of, length-record_of, send_lem, packet_block-IsBlock,
}
use libpgen.PcapngStream.Blocks.{length-block_bytes, zeros, length-zeros, image-parts}
use libpgen.Pcapng.Epb.{pad4}
use libpgen.Pcapng.Bodies.{epb_contract, pad4_le}
use libpgen.FileStream.{File, FileStream, advance}
use libpgen.Pcapng.{Block, BodyOps, block_tail}
use libpgen.Pcapng.Contract.{Contract}
use libpgen.Pcapng.Laws.{IsBlock, image}
use libpgen.PcapngStream.Reads.{reading, fread_lem, read_into_lem, read_block-head, body_room_lem}

read_into_fault :
    (at n : ℕ) (xs rest passed : List ℕ) (room : ℕ) (buffer : Memory)
    → n ≡ length xs
    → 0 < n
    → length buffer < at + n
    → read_into at n (reading passed (xs ++ rest) room buffer) ≡ fault
read_into_fault at n xs rest passed room buffer e p r =
    let s : Reading = reading (passed ++ xs) rest room buffer in
    rw (fread_lem n xs rest passed room e p) (
      >>=-fault (member (λ (s : Reading). s.buffer) (λ b s. record s { buffer = b }) (store xs at))
        _ s
        (member-fault (λ (s : Reading). s.buffer) (λ b s. record s { buffer = b }) (store xs at) s
          (store_fault xs at buffer (omega (arith, e, r)))))

-- `read_block` of a block that is longer than the buffer writes behind the buffer's end.
pub read_block_fault :
    (h : BlockHead) (mid end rest passed : List ℕ) (room : ℕ) (buffer : Memory)
    → block_head.Fits h
    → h.total_length ≡ 12 + length mid
    → 0 < length mid
    → length end ≡ 4
    → 8 ≤ length buffer
    → length buffer < h.total_length
    → read_block (reading passed (((block_head.put h ++ mid) ++ end) ++ rest) room buffer) ≡ fault
read_block_fault h mid end rest passed room buffer fits total some_body four r over =
    let head = block_head.put h in
    let n = body_room h.total_length in
    let n_lem = body_room_lem h.total_length (length mid) fits.1 total in
    let b1 = splice 0 head buffer in
    let long = length-splice 0 head buffer in
    let p1 = passed ++ head in
    let s1 = reading p1 (mid ++ (end ++ rest)) room b1 in
    ap (λ a. read_block (reading passed a room buffer))
      (append_assoc (head ++ mid) end rest ∙ append_assoc head mid (end ++ rest))
    ∙ read_block-head h (mid ++ (end ++ rest)) passed room buffer fits r
    ∙ elim (Bool-cases (leb (8 + n) (length b1))) [
      | inl e ↦
          let b2 = splice 8 mid b1 in
          >>=-ok (read_into 8 n) _ s1 (
            read_into_lem 8 n mid (end ++ rest) p1 room b1 n_lem (omega (arith, n_lem, some_body))
              (leb→le (8 + n) (length b1) e))
          ∙ >>=-fault (read_into (8 + n) 4) _ (reading (p1 ++ mid) (end ++ rest) room b2) (
              read_into_fault (8 + n) 4 end rest (p1 ++ mid) room b2 (sym four) (omega arith)
                (omega (arith, length-splice 8 mid b1, long, n_lem, total, over)))
      | inr e ↦ >>=-fault (read_into 8 n) _ s1 (
          read_into_fault 8 n mid (end ++ rest) p1 room b1 n_lem (omega (arith, n_lem, some_body))
            (leb→gt (8 + n) (length b1) e))
    ]

read_block_long :
    {B : Type 0} {ops : BodyOps B} {tag : ℕ} {IsValid : B → Type 0} {fill : B → List ℕ → List ℕ}
    {seen : B → List ℕ → B} (contract : Contract ops tag IsValid fill seen) (b : Block B)
    (v : IsBlock contract b) (under rest passed : List ℕ) (room : ℕ) (buffer : Memory)
    → tag < 4294967296
    → 0 < ops.body_length b.body
    → ops.body_length b.body ≤ length under
    → 8 ≤ length buffer
    → length buffer < b.total_length
    → read_block (reading passed (image contract b under ++ rest) room buffer) ≡ fault
read_block_long {fill = fill} contract b v under rest passed room buffer t p l r over =
    let long = length-append (fill b.body under) b.option in
    let body = contract.length-fill b.body under v.body l in
    ap (λ xs. read_block (reading passed (xs ++ rest) room buffer))
      (sym (image-parts contract b under))
    ∙ read_block_fault (record { type = b.type; total_length = b.total_length })
        (fill b.body under ++ b.option) (block_tail.put b.total_length) rest passed room buffer
        (omega (arith, v.type, t), v.small) (omega (arith, v.total, long, body))
        (omega (arith, long, body, p)) refl r over

pad4_large : (n : ℕ) → 968 < n → 988 < pad4 (20 + n)
pad4_large n h = ground (arith, h)

on_buffer-fault :
    {A : Type 0} (tmp : Memory) (m : Exec Reading A) (s : FileStream)
    → m (record { file = s; buffer = tmp }) ≡ fault
    → on_buffer tmp m s ≡ fault
on_buffer-fault tmp m s e = rw (e, on_buffer)

recv_round_fault :
    (tmp : Memory) (bufferlen : ℕ) (passed ahead : List ℕ) (room : ℕ)
    → 0 < length ahead
    → read_block (reading passed ahead room tmp) ≡ fault
    → recv_round tmp bufferlen (stream (file_at passed ahead room)) ≡ fault
unfolding recv_round
recv_round_fault tmp bufferlen passed ahead room some_bytes e =
    let s = stream (file_at passed ahead room) in
    >>=-ok FileStream.feof _ s
      (feof_lem passed ahead room ∙ ap (λ end. ok end s) (not_zero (length ahead) some_bytes))
    ∙ >>=-fault (on_buffer tmp read_block) _ s (on_buffer-fault tmp read_block s e)

-- A packet of more than 968 bytes, and of fewer than 2^32 - 35, can be sent and not received: `send`
-- appends its block to a file that takes it, and `recv` at that block writes behind the end of its
-- `tmp_buffer` of 1000 bytes, whatever buffer the caller gives.
pub recv-send_overflow :
    (p : List ℕ) (f : File) (rest passed : List ℕ) (room bufferlen : ℕ) (tmp : Memory)
    → 968 < length p
    → IsSendable p
    → length (record_of p) ≤ f.room
    → length tmp ≡ 1000
    → (send p (stream f) ≡ ok tt (stream (advance (record_of p) f)))
      × (recv tmp bufferlen (stream (file_at passed (record_of p ++ rest) room)) ≡ fault)
unfolding recv recv_loop
recv-send_overflow p f rest passed room bufferlen tmp large h fits full =
    let b = packet_block p in
    let v = packet_block-IsBlock p h in
    let total = length-block_bytes epb_contract b v in
    let long = length-record_of p h in
    let n = suc (length (record_of p ++ rest)) in
    let s = stream (file_at passed (record_of p ++ rest) room) in
    let more = length-append (record_of p) rest in
    let over : 1000 < 12 + pad4 (20 + length p) = omega (arith, pad4_large (length p) large) in
    (
      send_lem p f h fits,
      >>=-fault (recv_loop n tmp bufferlen) given s (
          >>=-fault (recv_round tmp bufferlen) _ s (
            recv_round_fault tmp bufferlen passed (record_of p ++ rest) room
              (omega (arith, more, long, over))
              (read_block_long epb_contract b v (zeros b) rest passed room tmp (omega arith)
                (omega (arith, pad4_le (20 + b.body.fields.capture_length)))
                (length-zeros epb_contract b v) (omega (arith, full))
                (omega (arith, full, total, long, over))))),
    )
