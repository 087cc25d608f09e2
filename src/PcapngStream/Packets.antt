-- ===== src/PcapngStream/Packets.antt =====
-- `send` of a packet, and `recv` of what it wrote.
use libpgen.Base.{
  min, ℕ, Bool-cases, ◌⊎◌, ltb, ltb→lt, ltb→ge, inl, inr, ==_iff, ◌+◌, ◌-◌, ◌%◌, ◌≤◌, ◌<◌, ◌≡◌,
  refl, sym, ap, subst, ◌∙◌, List, ◌++◌, some, arith, length, take, take-append, take-length, ◌==◌,
}
use libpgen.Base.Bytes.{to_u32}
use libpgen.Base.Run.{ok}
use libpgen.Base.Splice.{splice}
use libpgen.FileStream.{File, advance}
use libpgen.FileStream.Laws.{stream, file_at}
use libpgen.Layout.{Memory, StandsAt, StandsAt-append, StandsAt-splice}
use libpgen.Pcapng.{block_tail}
use libpgen.Pcapng.Epb
use libpgen.Pcapng.Epb.{Epb, pad4, epb_struct, added_length, set_packet}
use libpgen.Pcapng.Laws.{head_bytes, IsBlock}
use libpgen.Pcapng.Bodies.{epb_contract, epb_fill, epb_front, pad4_le}
use libpgen.PcapngStream.{packet_block, recv_round, send}
use libpgen.PcapngStream.Blocks.{block_bytes, length-block_bytes, write_block_lem, zeros}
use libpgen.PcapngStream.Rounds.{recv_round_packet}

-- The four lengths of a packet block are 32 bits wide.
abbrev pub IsSendable : List ℕ → Type 0
IsSendable p = length p + 35 < 4294967296

abbrev pub record_of : List ℕ → List ℕ
record_of p = block_bytes epb_contract (packet_block p)

to_u32_small : (n : ℕ) → n < 4294967296 → to_u32 n ≡ n
to_u32_small n h = omega (arith, h)

pub pad4_bound : (n : ℕ) → pad4 n ≤ n + 3
pad4_bound n = ground arith

pub pad4_small : (n : ℕ) → n ≤ 968 → pad4 (20 + n) ≤ 988
pad4_small n h = ground (arith, h)

pad4_multiple : (n : ℕ) → pad4 n % 4 ≡ 0
pad4_multiple n = elim (Bool-cases (n % 4 == 0)) [
  | inl e ↦ rw e ((==_iff (n % 4) 0).0 e)
  | inr e ↦ rw e (let odd : 0 < n % 4 = ground (arith, e) in omega (arith, odd))
]

pub added_length_lem : (n : ℕ) → n + 35 < 4294967296 → added_length 32 n ≡ 12 + pad4 (20 + n)
added_length_lem n h =
    let whole = to_u32_small (32 + n) (omega (arith, h)) in
    let padded : 0 < n % 4 → to_u32 (32 + n + (4 - n % 4)) ≡ 32 + n + (4 - n % 4) =
      λ k. to_u32_small (32 + n + (4 - n % 4)) (omega (arith, h, k)) in
    rw whole (ground (arith, padded))

added_length_wraps : (n : ℕ) → n < 4294967296 → 4294967296 ≤ n + 35 → added_length 32 n ≤ 32
added_length_wraps n h over = elim (Bool-cases (n % 4 == 0)) [
  | inl e ↦ let even : n % 4 ≡ 0 = (==_iff (n % 4) 0).0 e in rw e (omega (arith, even, h, over))
  | inr e ↦ let odd : 0 < n % 4 = ground (arith, e) in rw e (omega (arith, odd, h, over))
]

-- The `total_length` that `set_packet` computes in 32 bits, for a new block and a packet whose length
-- has 32 bits: up to 2^32 - 36 bytes it is the length of head, struct, padded packet and tail, a
-- multiple of four; from there on the sum wraps around, and it is 32 or less.
pub set_packet-total :
    (p : List ℕ)
    → length p < 4294967296
    → let t = (packet_block p).total_length in
      (IsSendable p
        × (t ≡ 12 + pad4 (20 + length p))
        × (t % 4 ≡ 0)
        × (length p + 32 ≤ t)
        × (t ≤ length p + 35))
      ⊎ ((4294967296 ≤ length p + 35) × (t ≤ 32))
unfolding set_packet Epb.construct
set_packet-total p h =
    let n = length p in
    elim (Bool-cases (ltb (n + 35) 4294967296)) [
      | inl e ↦
          let s = ltb→lt (n + 35) 4294967296 e in
          let t = added_length_lem n s in
          inl (
            s,
            t,
            omega (arith, t, pad4_multiple (20 + n)),
            omega (arith, t, pad4_le (20 + n)),
            omega (arith, t, pad4_bound (20 + n)),
          )
      | inr e ↦ let over = ltb→ge (n + 35) 4294967296 e in inr (over, added_length_wraps n h over)
    ]

pub packet_block-IsBlock : (p : List ℕ) → IsSendable p → IsBlock epb_contract (packet_block p)
unfolding set_packet Epb.construct
packet_block-IsBlock p h =
    let n = length p in
    let same = to_u32_small n (omega (arith, h)) in
    record {
      type = refl;
      body = record {
        fits = (
          omega arith,
          (omega arith, (omega arith, (omega (arith, h, same), omega (arith, h, same)))),
        );
        captured = omega (arith, same);
      };
      total = omega (arith, added_length_lem n h, ap (λ (k : ℕ). pad4 (20 + k)) same);
      small = omega (arith, added_length_lem n h, pad4_bound (20 + n), h);
    }

pub length-record_of :
    (p : List ℕ) → IsSendable p → length (record_of p) ≡ 12 + pad4 (20 + length p)
unfolding set_packet Epb.construct
length-record_of p h =
    length-block_bytes epb_contract (packet_block p) (packet_block-IsBlock p h)
    ∙ added_length_lem (length p) h

-- `send` appends the record of the packet, an empty one too.
pub send_lem :
    (p : List ℕ) (f : File)
    → IsSendable p
    → length (record_of p) ≤ f.room
    → send p (stream f) ≡ ok tt (stream (advance (record_of p) f))
unfolding send set_packet
send_lem p f h r =
    let v = packet_block-IsBlock p h in
    write_block_lem epb_contract (packet_block p) v f
      (omega (arith, r, length-block_bytes epb_contract (packet_block p) v))

-- The packet stands behind the two structs of its block.
record_of-StandsAt :
    (p : List ℕ) (tmp : Memory)
    → IsSendable p
    → length (record_of p) ≤ length tmp
    → StandsAt p (splice 0 (record_of p) tmp) 28
unfolding set_packet Epb.construct
record_of-StandsAt p tmp h r =
    let b = packet_block p in
    let head = head_bytes b in
    let fill = epb_fill b.body (zeros b) in
    let cap = b.body.fields.capture_length in
    let same = to_u32_small (length p) (omega (arith, h)) in
    let mem = splice 0 (record_of p) tmp in
    let all = StandsAt-splice (record_of p) tmp 0 (omega (arith, r)) in
    let front =
      StandsAt-append ((head ++ fill) ++ b.option) (block_tail.put b.total_length) mem 0 all in
    let inner = StandsAt-append (head ++ fill) b.option mem 0 front.0 in
    let body = StandsAt-append head fill mem 0 inner.0 in
    let packet = StandsAt-append (epb_front b.body) _ mem 8 body.1 in
    let bytes = StandsAt-append (epb_struct.put b.body.fields) (take cap p) mem 8 packet.0 in
    subst (λ xs. StandsAt xs mem 28) (take-length p cap (omega (arith, same))) bytes.1

least_lem : (bufferlen n : ℕ) → n ≤ bufferlen → n ≤ 968 → min bufferlen (to_u32 n) ≡ n
least_lem bufferlen n h small = omega (arith, h, small)

-- `recv` of a packet of which the buffer and `tmp_buffer` take all, at the first round.
pub recv_round_sent :
    (p rest passed : List ℕ) (room bufferlen : ℕ) (tmp : Memory)
    → length p ≤ 968
    → length p ≤ bufferlen
    → length tmp ≡ 1000
    → recv_round tmp bufferlen (stream (file_at passed (record_of p ++ rest) room))
      ≡ ok (some p) (stream (file_at (passed ++ record_of p) rest room))
unfolding set_packet
recv_round_sent p rest passed room bufferlen tmp small h full =
    let sendable : IsSendable p = omega (arith, small) in
    let b = packet_block p in
    let v = packet_block-IsBlock p sendable in
    let long = length-record_of p sendable in
    let total : b.total_length ≤ length tmp =
      omega (arith, length-block_bytes epb_contract b v, long, pad4_small (length p) small, full) in
    let n_lem : min bufferlen (to_u32 (length p)) ≡ length p =
      least_lem bufferlen (length p) h small in
    let st =
      record_of-StandsAt p tmp sendable (omega (arith, long, pad4_small (length p) small, full)) in
    recv_round_packet b rest passed room bufferlen tmp v total (omega (arith, n_lem, small, full))
    ∙ ap (λ xs. ok (some xs) (stream (file_at (passed ++ record_of p) rest room)))
        (ap (take (min bufferlen (to_u32 (length p)))) st.here
          ∙ take-append p st.rest _ (sym n_lem))
