-- ===== src/PcapngStream/Blocks.antt =====
-- Whole blocks: `write_block`, and `read_block` of what it wrote.
use libpgen.Base.{
  ℕ, ◌≤◌, ◌<◌, ◌≡◌, refl, sym, ap, ◌∙◌, List, ◌++◌, append_assoc, arith, length, replicate, drop,
  length-append, length-drop, length-replicate,
}
use libpgen.Base.Run.{ok, >>=-ok, Exec}
use libpgen.Base.Splice.{splice, splice-all}
use libpgen.FileStream
use libpgen.FileStream.{File, FileStream, advance}
use libpgen.FileStream.Laws.{stream, write_lem}
use libpgen.Layout.{Memory, StandsAt-splice}
use libpgen.Pcapng.{Block, BodyOps, block_tail, read, write}
use libpgen.Pcapng.Contract.{Contract}
use libpgen.Pcapng.Laws.{head_bytes, IsBlock, image, length-image, write_image_block}
use libpgen.Pcapng.ReadBack.{seen_block, read_image_block}
use libpgen.PcapngStream.{write_block, read_block, on_local}
use libpgen.PcapngStream.Reads.{reading, read_block_lem}

pub on_local-ok :
    {S T A : Type 0} (t : T) (m : Exec T A) (s : S) {a : A} {t' : T}
    → m t ≡ ok a t'
    → on_local t m s ≡ ok (a, t') s
on_local-ok t m s e = rw (e, on_local)

-- The bytes that `resize` makes.
abbrev raw_data : {B : Type 0} → Block B → List ℕ
raw_data b = replicate b.total_length 0

abbrev pub zeros : {B : Type 0} → Block B → List ℕ
zeros b = drop 8 (raw_data b)

module _ {B : Type 0} {ops : BodyOps B} {tag : ℕ} {IsValid : B → Type 0}
    {fill : B → List ℕ → List ℕ} {seen : B → List ℕ → B}
    (contract : Contract ops tag IsValid fill seen) (b : Block B) where
  -- The block over them.
  abbrev pub block_bytes : List ℕ
  block_bytes = image contract b (zeros b)

  pub image-parts :
      (under : List ℕ)
      → (head_bytes b ++ (fill b.body under ++ b.option)) ++ block_tail.put b.total_length
        ≡ image contract b under
  image-parts under =
      ap (λ xs. xs ++ block_tail.put b.total_length)
        (sym (append_assoc (head_bytes b) (fill b.body under) b.option))

module _ {B : Type 0} {ops : BodyOps B} {tag : ℕ} {IsValid : B → Type 0}
    {fill : B → List ℕ → List ℕ} {seen : B → List ℕ → B}
    (contract : Contract ops tag IsValid fill seen) (b : Block B) (v : IsBlock contract b) where
  pub length-zeros : ops.body_length b.body ≤ length (zeros b)
  length-zeros =
      omega (arith, length-drop 8 (raw_data b), length-replicate {A = ℕ} b.total_length 0, v.total)

  pub length-block_bytes : length (block_bytes contract b) ≡ b.total_length
  length-block_bytes = length-image contract b (zeros b) v length-zeros

  -- `write_block` appends the bytes of the block.
  pub write_block_lem :
      (f : File)
      → b.total_length ≤ f.room
      → write_block ops b (stream f) ≡ ok tt (stream (advance (block_bytes contract b) f))
  unfolding write_block
  write_block_lem f r =
      let raw = raw_data b in
      let long = length-replicate {A = ℕ} b.total_length 0 in
      let all = splice-all (block_bytes contract b) raw (length-block_bytes ∙ sym long) in
      >>=-ok (on_local raw (write ops b 0 b.total_length))
        (λ (d : Unit {0} × Memory). FileStream.write d.1) (stream f)
        (on_local-ok raw (write ops b 0 b.total_length) (stream f) (
          write_image_block contract b 0 b.total_length raw v (omega arith) (omega (arith, v.small))
            (omega (arith, long))
          ∙ ap (ok tt) all))
      ∙ write_lem (block_bytes contract b) f (omega (arith, length-block_bytes, v.total))
          (omega (arith, length-block_bytes, r))

  -- The block in the buffer, and the file behind it.
  pub read_block-image :
      (under rest passed : List ℕ) (room : ℕ) (buffer : Memory)
      → tag < 4294967296
      → 0 < ops.body_length b.body
      → ops.body_length b.body ≤ length under
      → b.total_length ≤ length buffer
      → let xs = image contract b under in
        read_block (reading passed (xs ++ rest) room buffer)
        ≡ ok b.total_length (reading (passed ++ xs) rest room (splice 0 xs buffer))
  read_block-image under rest passed room buffer t p l r =
      let head = head_bytes b in
      let mid = fill b.body under ++ b.option in
      let tail = block_tail.put b.total_length in
      let same = image-parts contract b under in
      let long = length-append (fill b.body under) b.option in
      let body = contract.length-fill b.body under v.body l in
      ap (λ xs. read_block (reading passed (xs ++ rest) room buffer)) (sym same)
      ∙ read_block_lem (record { type = b.type; total_length = b.total_length }) mid tail rest
          passed room buffer (omega (arith, v.type, t), v.small)
          (omega (arith, v.total, long, body)) (omega (arith, long, body, p)) refl r
      ∙ ap (λ xs. ok b.total_length (reading (passed ++ xs) rest room (splice 0 xs buffer))) same

  -- `read` of the block in the buffer.
  pub read_in_buffer :
      (c : Block B) (buffer : Memory)
      → tag < 4294967296
      → b.total_length ≤ length buffer
      → let mem = splice 0 (block_bytes contract b) buffer in
        read ops mem 0 b.total_length c ≡ ok tt (seen_block contract b (drop 8 mem))
  read_in_buffer c buffer t r =
      let mem = splice 0 (block_bytes contract b) buffer in
      read_image_block contract b c (zeros b) mem 0 b.total_length t v (omega arith)
        (omega (arith, v.small)) length-zeros
        (StandsAt-splice (block_bytes contract b) buffer 0 (omega (arith, length-block_bytes, r)))
