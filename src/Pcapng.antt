-- ===== src/Pcapng.antt =====
-- pgen/io/pcapng_stream.h: the class `pcapng_block`, on a little-endian host. A block is a head, a
-- body that the derived class defines, options, and a tail that repeats the length.
pub mod Shb
pub mod Idb
pub mod Epb
pub mod Contract
pub mod Summary
pub mod Laws
pub mod ReadBack
pub mod Bodies
use libpgen.Base.{ℕ, ◌+◌, List, [], ◌==◌, not, length, ltb, refl}
use libpgen.Base.Bytes.{sub_size}
use libpgen.Base.Run.{Exec, get, modify, throw_if, ◌>>=◌, ◌>>◌}
use libpgen.Layout.{Layout, Memory, u32, ◌⊗◌, via, cast, fetch, store}

-- `pcapng_type`
abbrev pub section_header : ℕ
section_header = 0x0a0d0d0a

abbrev pub interface_description : ℕ
interface_description = 0x00000001

abbrev pub simple_packet : ℕ
simple_packet = 0x00000003

abbrev pub enhanced_packet : ℕ
enhanced_packet = 0x00000006

pub record BlockHead : Type 0 where
  pub type : ℕ
  pub total_length : ℕ

-- `struct pcapng_block_head`
abbrev pub block_head : Layout BlockHead
block_head =
    via (u32 ⊗ u32) (λ h. (h.type, h.total_length)) (λ t. record { type = t.0; total_length = t.1 })
      (λ h. refl) (λ t. refl)

-- `struct pcapng_block_tail`
abbrev pub block_tail : Layout ℕ
block_tail = u32

-- A block of a class whose own members are `B`.
pub record Block (B : Type 0) : Type 0 where
  pub type : ℕ
  pub total_length : ℕ
  pub option : List ℕ
  pub body : B

-- The virtual methods `body_length`, `read_body` and `write_body`.
pub record BodyOps (B : Type 0) : Type 0 where
  pub body_length : B → ℕ
  pub read_body : List ℕ → ℕ → ℕ → Exec (Block B) (Unit {0})
  pub write_body : B → ℕ → ℕ → Exec Memory (Unit {0})

unfoldable pub read_head : {B : Type 0} → List ℕ → ℕ → ℕ → Exec (Block B) (Unit {0})
read_head buf at len = do
  throw_if (ltb len block_head.size) "pgen::pcapng_block::read: bufferlen is too small"
  h ← cast block_head buf at
  modify (λ b. record b { type = h.type; total_length = h.total_length })

unfoldable pub write_head : {B : Type 0} → Block B → ℕ → ℕ → Exec Memory (Unit {0})
write_head b at len = do
  throw_if (ltb len block_head.size) "pgen::pcapng_block::write_head: bufferlen is too small"
  store (block_head.put (record { type = b.type; total_length = b.total_length })) at

unfoldable pub read_tail : {B : Type 0} → List ℕ → ℕ → ℕ → Exec (Block B) (Unit {0})
read_tail buf at len = do
  throw_if (ltb len block_tail.size) "pgen::pcapng_block::read: bufferlen is too small"
  total_length2 ← cast block_tail buf at
  b ← get
  throw_if (not (total_length2 == b.total_length)) "pgen::pcapng_block::read: totlen1 != totlen2"

unfoldable pub write_option : {B : Type 0} → Block B → ℕ → ℕ → Exec Memory (Unit {0})
write_option b at len = do
  throw_if (ltb len (length b.option)) "pgen::pcapng_block::write_option: bufferlen is too small"
  store b.option at

unfoldable pub write_tail : {B : Type 0} → Block B → ℕ → ℕ → Exec Memory (Unit {0})
write_tail b at len = do
  throw_if (ltb len block_tail.size) "pgen::pcapng_block::write_tail: bufferlen is too small"
  store (block_tail.put b.total_length) at

module _ {B : Type 0} (ops : BodyOps B) where
  -- What the length says that there is between body and tail; it wraps where that is nothing.
  abbrev pub option_length : Block B → ℕ
  option_length b = sub_size (sub_size (sub_size b.total_length 8) (ops.body_length b.body)) 4

  unfoldable pub read_option : List ℕ → ℕ → ℕ → Exec (Block B) (Unit {0})
  read_option buf at len = do
    b ← get
    throw_if (ltb len (option_length b)) "pgen::pcapng_block::read: bufferlen is too small"
    bytes ← fetch buf at (option_length b)
    modify (λ c. record c { option = bytes })

  -- The second half of `read`, behind the body.
  abbrev pub read_rest : List ℕ → ℕ → ℕ → ℕ → Exec (Block B) (Unit {0})
  read_rest buf at len bufferlen = do
    read_option buf at len
    b ← get
    read_tail buf (at + length b.option) (sub_size len (length b.option))
    throw_if
        (not (sub_size bufferlen (sub_size (sub_size len (length b.option)) 4) == b.total_length))
        "pgen::pcapng_block::read: length error"

  unfoldable pub read : List ℕ → ℕ → ℕ → Exec (Block B) (Unit {0})
  unfolding read_option
  read buf at bufferlen = do
    read_head buf at bufferlen
    ops.read_body buf (at + 8) (sub_size bufferlen 8)
    b ← get
    read_rest buf (at + 8 + ops.body_length b.body)
        (sub_size (sub_size bufferlen 8) (ops.body_length b.body)) bufferlen

  unfoldable pub write : Block B → ℕ → ℕ → Exec Memory (Unit {0})
  write b at bufferlen =
      let n = ops.body_length b.body in
      let left = sub_size (sub_size bufferlen 8) n in
      let m = length b.option in
      do
        throw_if (ltb bufferlen b.total_length)
            "pgen::pcapng_SHB::write: buffer length is too small"
        write_head b at bufferlen
        ops.write_body b.body (at + 8) (sub_size bufferlen 8)
        write_option b (at + 8 + n) left
        write_tail b (at + 8 + n + m) (sub_size left m)
        throw_if (not (sub_size bufferlen (sub_size (sub_size left m) 4) == b.total_length))
            "pgen::pcapng_block::write: length error"
