-- ===== src/Pcapng/ReadBack.antt =====
-- Blocks: what `read` makes of a block that stands in memory.
use libpgen.Base.{
  ℕ, ◌+◌, ◌≤◌, ◌<◌, ◌≡◌, ap, subst, ◌∙◌, List, ◌++◌, arith, length, drop, ge→ltb, length-append,
}
use libpgen.Base.Bytes.{sub_size, sub_size_le, size_mod}
use libpgen.Base.Run.{ok, >>=-ok, modify}
use libpgen.Layout.{StandsAt, StandsAt-append, fetch-StandsAt, fetch}
use libpgen.Pcapng.{
  Block, BodyOps, block_tail, read_head, read_tail, read_option, option_length, read_rest, read,
}
use libpgen.Pcapng.Contract.{Contract}
use libpgen.Pcapng.Laws.{head_bytes, read_head_lem, read_tail_lem, same-throw_if, IsBlock, image}

module _ {B : Type 0} {ops : BodyOps B} {tag : ℕ} {IsValid : B → Type 0}
    {fill : B → List ℕ → List ℕ} {seen : B → List ℕ → B}
    (contract : Contract ops tag IsValid fill seen) where
  -- The block that is read.
  abbrev pub seen_block : Block B → List ℕ → Block B
  seen_block b bs = record b { body = seen b.body bs }

  option_length_lem :
      (b : Block B) (bs : List ℕ)
      → IsBlock contract b
      → option_length ops (seen_block b bs) ≡ length b.option
  option_length_lem b bs v =
      let n = ops.body_length (seen b.body bs) in
      let same = contract.body_length-seen b.body bs in
      let small : b.total_length < size_mod = omega (arith, v.small) in
      let s1 = sub_size_le b.total_length 8 small (omega (arith, v.total)) in
      let s2 =
        sub_size_le (sub_size b.total_length 8) n (omega (arith, s1, small))
          (omega (arith, s1, same, v.total)) in
      let s3 =
        sub_size_le (sub_size (sub_size b.total_length 8) n) 4 (omega (arith, s1, s2, small))
          (omega (arith, s1, s2, same, v.total)) in
      omega (arith, s1, s2, s3, same, v.total)

  -- The options and the tail, behind the body.
  read_rest_lem :
      (b : Block B) (o bs buf : List ℕ) (at len bufferlen : ℕ)
      → IsBlock contract b
      → length b.option + 4 ≤ len
      → bufferlen ≡ len + 8 + ops.body_length b.body
      → bufferlen < size_mod
      → StandsAt b.option buf at
      → StandsAt (block_tail.put b.total_length) buf (at + length b.option)
      → read_rest ops buf at len bufferlen (record (seen_block b bs) { option = o })
        ≡ ok tt (seen_block b bs)
  unfolding read_option
  read_rest_lem b o bs buf at len bufferlen v l e s so st =
      let d = seen_block b bs in
      let c : Block B = record (seen_block b bs) { option = o } in
      let m = length b.option in
      let n = ops.body_length b.body in
      let k = option_length_lem b bs v in
      let small : len < size_mod = omega (arith, e, s) in
      let s1 = sub_size_le len m small (omega (arith, l)) in
      let s2 = sub_size_le (sub_size len m) 4 (omega (arith, s1, small)) (omega (arith, s1, l)) in
      let s3 = sub_size_le bufferlen (sub_size (sub_size len m) 4) s (omega (arith, s1, s2, e)) in
      >>=-ok (read_option ops buf at len) _ c (
        rw (ge→ltb len (option_length ops d) (omega (arith, k, l))) (
          >>=-ok (fetch buf at (option_length ops d))
            (λ bytes. modify (λ (c : Block B). record c { option = bytes })) c
            (fetch-StandsAt b.option buf at (option_length ops d) c k so)))
      ∙ >>=-ok (read_tail buf (at + m) (sub_size len m)) _ d
          (read_tail_lem d buf (at + m) (sub_size len m) v.small (omega (arith, s1, l)) st)
      ∙ same-throw_if (sub_size bufferlen (sub_size (sub_size len m) 4)) b.total_length
          "pgen::pcapng_block::read: length error" d (omega (arith, s1, s2, s3, v.total, e, l))

  -- `read` of a block that stands in a buffer returns, and the object is then that block, whatever it
  -- was before.
  pub read_image_block :
      (b c : Block B) (under buf : List ℕ) (at len : ℕ)
      → tag < 4294967296
      → IsBlock contract b
      → b.total_length ≤ len
      → len < size_mod
      → ops.body_length b.body ≤ length under
      → StandsAt (image contract b under) buf at
      → read ops buf at len c ≡ ok tt (seen_block b (drop (at + 8) buf))
  unfolding read
  read_image_block b c under buf at len t v enough s deep stands =
      let n = ops.body_length b.body in
      let head = head_bytes b in
      let body = fill b.body under in
      let long = contract.length-fill b.body under v.body deep in
      let two = length-append head body in
      let three = length-append (head ++ body) b.option in
      let (front, tail) =
        StandsAt-append ((head ++ body) ++ b.option) (block_tail.put b.total_length) buf at
          stands in
      let (inner, option) = StandsAt-append (head ++ body) b.option buf at front in
      let (first, second) = StandsAt-append head body buf at inner in
      let c1 : Block B = record c { type = b.type; total_length = b.total_length } in
      let bs = drop (at + 8) buf in
      let c2 : Block B = record c1 { body = seen b.body bs } in
      let same = contract.body_length-seen b.body bs in
      let s1 = sub_size_le len 8 s (omega (arith, v.total, enough)) in
      let s2 =
        sub_size_le (sub_size len 8) n (omega (arith, s1, s))
          (omega (arith, s1, v.total, enough)) in
      let left = sub_size (sub_size len 8) n in
      >>=-ok (read_head buf at len) _ c (
        read_head_lem b c buf at len (omega (arith, v.type, t)) v.small
          (omega (arith, v.total, enough)) first)
      ∙ >>=-ok (ops.read_body buf (at + 8) (sub_size len 8)) _ c1 (
          contract.read_fill b.body c1 under buf (at + 8) (sub_size len 8) v.body v.type
            (omega (arith, s1, v.total, enough)) deep second)
      ∙ ap (λ (k : ℕ). read_rest ops buf (at + 8 + k) (sub_size (sub_size len 8) k) len c2) same
      ∙ read_rest_lem b c.option bs buf (at + 8 + n) left len v
          (omega (arith, s1, s2, v.total, enough)) (omega (arith, s1, s2, v.total, enough)) s
          (subst (λ (k : ℕ). StandsAt b.option buf k) (omega (arith, two, long)) option)
          (subst (λ (k : ℕ). StandsAt (block_tail.put b.total_length) buf k)
            (omega (arith, two, three, long)) tail)
