-- ===== src/PcapngStream/Termination.antt =====
-- `recv` comes to an end: each round that does not return takes bytes off the file.
use libpgen.Base.{ℕ, zero, suc, ◌<◌, ◌≡◌, List, [], Option, some, none, arith, ◌==◌, ltb}
use libpgen.Base.Run.{Run, ok, throw, fault, pure, throw_if, ◌>>=◌}
use libpgen.FileStream
use libpgen.FileStream.{left, File, FileStream, fread, on_fd, skip}
use libpgen.Layout.{Memory, cast}
use libpgen.Pcapng.{enhanced_packet, simple_packet, read, block_head}
use libpgen.Pcapng.Epb
use libpgen.Pcapng.Epb.{Epb}
use libpgen.PcapngStream.{
  Reading, read_block, on_buffer, on_local, detect_pcapng_blocktype, copy_packet, recv_round,
  recv_loop,
}
use libpgen.FileStream.Below.{
  feof-Below, Below, Below-bind, Below-within, weaken_bound, Below-if, Below-throw_if,
}
use libpgen.PcapngStream.Taking.{left_of, read_block-Below}

-- A method of an object that is local.
Below-on_local :
    {S T A : Type 0} (size : S → ℕ) (t : T) (r : Run T A) (s : S) (n : ℕ)
    → size s < n
    → Below size n (on_local t (λ (_ : T). r) s)
Below-on_local size t (ok a t') s n p = p
Below-on_local size t (throw e t') s n p = tt
Below-on_local size t fault s n p = tt

Below-on_buffer :
    {A : Type 0} (tmp : Memory) (r : Run Reading A) (s : FileStream) (n : ℕ)
    → Below left_of n r
    → Below left n (on_buffer tmp (λ _. r) s)
Below-on_buffer tmp (ok a t) s n p = p
Below-on_buffer tmp (throw e t) s n p = tt
Below-on_buffer tmp fault s n p = tt

detect-Below :
    (tmp : Memory) (len : ℕ) (s : FileStream) (n : ℕ)
    → left s < n
    → Below left n (detect_pcapng_blocktype tmp len s)
unfolding detect_pcapng_blocktype
detect-Below tmp len s n p =
    Below-bind left n n (throw_if (ltb len block_head.size) _ s) _ s
      (Below-throw_if left (ltb len 8) _ s n p)
      (λ _ s' q.
        Below-bind left n n (cast block_head tmp 0 s') _ s' (Below-within left tmp 0 8 _ s' n q)
          (λ _ s' q. q))

copy_packet-Below :
    (tmp : Memory) (total len : ℕ) (s : FileStream) (n : ℕ)
    → left s < n
    → Below left n (copy_packet tmp total len s)
copy_packet-Below tmp total len s n p =
    Below-bind left n n (on_local (Epb.construct []) (read Epb.ops tmp 0 total) s) _ s
      (Below-on_local left (Epb.construct []) (read Epb.ops tmp 0 total (Epb.construct [])) s n p)
      (λ epb s' q. Below-within left epb.1.body.packet 0 _ _ s' n q)

-- A round that returns or goes on leaves fewer bytes.
recv_round-Below :
    (tmp : Memory) (len : ℕ) (s : FileStream) → Below left (left s) (recv_round tmp len s)
unfolding recv_round
recv_round-Below tmp len s =
    let n = left s in
    let by_type = λ (block : ℕ × Memory) (type : ℕ) (s : FileStream) (q : left s < n).
      Below-if left _ _ (type == enhanced_packet) n s
        (Below-bind left n n (copy_packet block.1 block.0 len s) _ s
          (copy_packet-Below block.1 block.0 len s n q) (λ _ s' q. q))
        (Below-if left _ _ (type == simple_packet) n s tt q) in
    Below-bind left (suc n) n (FileStream.feof s) _ s (feof-Below s) (λ end s1 q.
      Below-bind left (suc n) n (throw_if end _ s1) _ s1 (Below-throw_if left end _ s1 (suc n) q)
        (λ _ s2 q.
          Below-bind left n n (on_buffer tmp read_block s2) _ s2
            (Below-on_buffer tmp (read_block (record { file = s2; buffer = tmp })) s2 n (
              weaken_bound left_of (left s2) n _ (omega (arith, q))
                (read_block-Below (record { file = s2; buffer = tmp }))))
            (λ block s3 q.
              Below-bind left n n (detect_pcapng_blocktype block.1 block.0 s3) _ s3
                (detect-Below block.1 block.0 s3 n q) (λ type s4 q. by_type block type s4 q))))

-- The loop of `recv`, with more rounds than the file has bytes left, never runs out of rounds: it
-- returns a packet, throws, or does what the language leaves undefined.
pub recv_loop-total :
    (n : ℕ) (tmp : Memory) (bufferlen : ℕ) (s s' : FileStream)
    → left s < n
    → ¬ (recv_loop n tmp bufferlen s ≡ ok none s')
unfolding recv_loop
recv_loop-total zero tmp bufferlen s s' p = absurd (omega (arith, p))
recv_loop-total (suc n) tmp bufferlen s s' p =
    inner (recv_round tmp bufferlen s) (recv_round-Below tmp bufferlen s)
      (λ s1 q. recv_loop-total n tmp bufferlen s1 s' (omega (arith, p, q)))
  where
    inner :
        (r : Run FileStream (Option (List ℕ)))
        → Below left (left s) r
        → ((s1 : FileStream) → left s1 < left s → ¬ (recv_loop n tmp bufferlen s1 ≡ ok none s'))
        → ¬ (
            ((λ _. r) >>= λ o. elim o [ none ↦ recv_loop n tmp bufferlen | some q ↦ pure (some q) ])
              s
            ≡ ok none s')
    inner (ok none s1) q next = next s1 q
    inner (ok (some q) s1) _ next = λ h. cc
    inner (throw e s1) q next = λ h. cc
    inner fault q next = λ h. cc
