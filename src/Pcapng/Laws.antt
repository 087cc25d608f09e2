-- ===== src/Pcapng/Laws.antt =====
-- Blocks: `write`, and `read` of what was written.
use libpgen.Base.{
  String, ℕ, ◌+◌, ◌≤◌, ◌<◌, ◌≡◌, refl, ap, ◌∙◌, List, ◌++◌, arith, length, drop, ge→ltb, ◌==◌,
  ==_iff, not, length-append, length-drop,
}
use libpgen.Base.Bytes.{sub_size, sub_size_le, size_mod}
use libpgen.Base.Run.{ok, throw_if, >>=-ok, modify}
use libpgen.Base.Splice.{splice, length-splice, splice-after}
use libpgen.Layout.{
  Memory, StandsAt, cast-StandsAt, store-splice, drop-splice_behind, store_within, cast,
}
use libpgen.Pcapng.{
  Block, BlockHead, BodyOps, block_head, block_tail, read_head, write_head, read_tail, write_tail,
  write_option, write,
}
use libpgen.Pcapng.Contract.{Contract}

abbrev pub head_bytes : {B : Type 0} → Block B → List ℕ
head_bytes b = block_head.put (record { type = b.type; total_length = b.total_length })

-- The parts that every block has, written and read.
module _ {B : Type 0} (b : Block B) where
  write_head_lem :
      (at len : ℕ) (mem : Memory)
      → 8 ≤ len
      → at + 8 ≤ length mem
      → write_head b at len mem ≡ ok tt (splice at (head_bytes b) mem)
  unfolding write_head
  write_head_lem at len mem l r = rw (ge→ltb len 8 l) (store_within (head_bytes b) at mem r)

  write_option_lem :
      (xs : List ℕ) (mem : Memory) (at k len : ℕ)
      → k ≡ at + length xs
      → length b.option ≤ len
      → k + length b.option ≤ length mem
      → write_option b k len (splice at xs mem) ≡ ok tt (splice at (xs ++ b.option) mem)
  unfolding write_option
  write_option_lem xs mem at k len e l r =
      rw (ge→ltb len (length b.option) l) (store-splice xs b.option mem at k e r)

  write_tail_lem :
      (xs : List ℕ) (mem : Memory) (at k len : ℕ)
      → k ≡ at + length xs
      → 4 ≤ len
      → k + 4 ≤ length mem
      → write_tail b k len (splice at xs mem)
        ≡ ok tt (splice at (xs ++ block_tail.put b.total_length) mem)
  unfolding write_tail
  write_tail_lem xs mem at k len e l r =
      rw (ge→ltb len 4 l) (store-splice xs (block_tail.put b.total_length) mem at k e r)

  pub read_head_lem :
      (c : Block B) (buf : List ℕ) (at len : ℕ)
      → b.type < 4294967296
      → b.total_length < 4294967296
      → 8 ≤ len
      → StandsAt (head_bytes b) buf at
      → read_head buf at len c ≡ ok tt (record c { type = b.type; total_length = b.total_length })
  unfolding read_head
  read_head_lem c buf at len t s l st =
      let h : BlockHead = record { type = b.type; total_length = b.total_length } in
      rw (ge→ltb len 8 l) (
        >>=-ok (cast block_head buf at)
          (λ (h : BlockHead).
            modify (λ (c : Block B). record c { type = h.type; total_length = h.total_length }))
          c (cast-StandsAt block_head h buf at c (t, s) st))

  pub read_tail_lem :
      (buf : List ℕ) (at len : ℕ)
      → b.total_length < 4294967296
      → 4 ≤ len
      → StandsAt (block_tail.put b.total_length) buf at
      → read_tail buf at len b ≡ ok tt b
  unfolding read_tail
  read_tail_lem buf at len s l st = rw (ge→ltb len 4 l) (
      >>=-ok (cast block_tail buf at) _ b (cast-StandsAt block_tail b.total_length buf at b s st)
      ∙ rw ((==_iff b.total_length b.total_length).1 refl))

-- A comparison that the code makes to throw.
pub same-throw_if :
    {S : Type 0} (m n : ℕ) (e : String) (s : S) → m ≡ n → throw_if (not (m == n)) e s ≡ ok tt s
same-throw_if m n e s h = rw ((==_iff m n).1 h)

module _ {B : Type 0} {ops : BodyOps B} {tag : ℕ} {IsValid : B → Type 0}
    {fill : B → List ℕ → List ℕ} {seen : B → List ℕ → B}
    (contract : Contract ops tag IsValid fill seen) where
  -- A block of the class, whose length says what its parts have.
  pub record IsBlock (b : Block B) : Type 0 where
    pub type : b.type ≡ tag
    pub body : IsValid b.body
    pub total : b.total_length ≡ 12 + ops.body_length b.body + length b.option
    pub small : b.total_length < 4294967296

  -- The block as bytes, over the bytes `under` where its body goes.
  abbrev pub image : Block B → List ℕ → List ℕ
  image b under = ((head_bytes b ++ fill b.body under) ++ b.option) ++ block_tail.put b.total_length

  pub length-image :
      (b : Block B) (under : List ℕ)
      → IsBlock b
      → ops.body_length b.body ≤ length under
      → length (image b under) ≡ b.total_length
  length-image b under v l =
      let head = head_bytes b in
      let body = fill b.body under in
      omega (
        arith,
        length-append ((head ++ body) ++ b.option) (block_tail.put b.total_length),
        length-append (head ++ body) b.option,
        length-append head body,
        contract.length-fill b.body under v.body l,
        v.total,
      )

  -- `write` of a block into memory that is long enough returns, and overwrites the bytes of the block.
  pub write_image_block :
      (b : Block B) (at len : ℕ) (mem : Memory)
      → IsBlock b
      → b.total_length ≤ len
      → len < size_mod
      → at + b.total_length ≤ length mem
      → write ops b at len mem ≡ ok tt (splice at (image b (drop (at + 8) mem)) mem)
  unfolding write
  write_image_block b at len mem v enough s room =
      let n = ops.body_length b.body in
      let m = length b.option in
      let head = head_bytes b in
      let under = drop (at + 8) mem in
      let body = fill b.body under in
      let s1 = sub_size_le len 8 s (omega (arith, v.total, enough)) in
      let s2 =
        sub_size_le (sub_size len 8) n (omega (arith, s1, s))
          (omega (arith, s1, v.total, enough)) in
      let left = sub_size (sub_size len 8) n in
      let s3 =
        sub_size_le left m (omega (arith, s1, s2, s)) (omega (arith, s1, s2, v.total, enough)) in
      let s4 =
        sub_size_le (sub_size left m) 4 (omega (arith, s1, s2, s3, s))
          (omega (arith, s1, s2, s3, v.total, enough)) in
      let s5 = sub_size_le len (sub_size (sub_size left m) 4) s (omega (arith, s1, s2, s3, s4)) in
      let deep : n ≤ length under = omega (arith, length-drop (at + 8) mem, v.total, room) in
      let long = contract.length-fill b.body under v.body deep in
      let two = length-append head body in
      let three = length-append (head ++ body) b.option in
      rw (ge→ltb len b.total_length enough) (
        >>=-ok (write_head b at len) _ mem (
          write_head_lem b at len mem (omega (arith, v.total, enough))
            (omega (arith, v.total, room)))
        ∙ >>=-ok (ops.write_body b.body (at + 8) (sub_size len 8)) _ (splice at head mem) (
            contract.write_fill b.body (at + 8) (sub_size len 8) (splice at head mem) v.body
              (omega (arith, s1, v.total, enough))
              (omega (arith, length-splice at head mem, v.total, room))
            ∙ ap (λ (u : List ℕ). ok tt (splice (at + 8) (fill b.body u) (splice at head mem)))
                (drop-splice_behind head mem at (omega (arith, v.total, room)))
            ∙ ap (ok tt) (splice-after at head body mem))
        ∙ >>=-ok (write_option b (at + 8 + n) left) _ (splice at (head ++ body) mem) (
            write_option_lem b (head ++ body) mem at (at + 8 + n) left (omega (arith, two, long))
              (omega (arith, s1, s2, v.total, enough)) (omega (arith, v.total, room)))
        ∙ >>=-ok (write_tail b (at + 8 + n + m) (sub_size left m)) _
            (splice at ((head ++ body) ++ b.option) mem)
            (write_tail_lem b ((head ++ body) ++ b.option) mem at (at + 8 + n + m) (sub_size left m)
              (omega (arith, two, three, long)) (omega (arith, s1, s2, s3, v.total, enough))
              (omega (arith, v.total, room)))
        ∙ same-throw_if (sub_size len (sub_size (sub_size left m) 4)) b.total_length
            "pgen::pcapng_block::write: length error" _
            (omega (arith, s1, s2, s3, s4, s5, v.total, enough)))
