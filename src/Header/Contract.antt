-- ===== src/Header/Contract.antt =====
-- pgen/core/header.h: the abstract class `header`, as the operations that a protocol header
-- implements, and the contract that makes an implementation usable in a packet.
use libpgen.Base.{ℕ, ◌+◌, ◌≤◌, ◌≡◌, List, length, take, drop}
use libpgen.Base.Bytes.{IsBytes}
use libpgen.Base.Run.{ok, Exec}
use libpgen.Base.Splice.{splice}
use libpgen.Layout.{Memory}

-- `write(buffer, bufferlen)` and `read(buffer, bufferlen)` take a pointer as an offset into the
-- memory that it points to.
pub record HeaderOps (H : Type 0) : Type 0 where
  pub length_of : H → ℕ
  pub write : H → ℕ → ℕ → Exec Memory (Unit {0})
  pub read : List ℕ → ℕ → ℕ → Exec H (Unit {0})

-- `image h` is the header as bytes. `Kept bs` says that `bs` has nothing set that the header class
-- has no member for.
pub record Contract {H : Type 0} (ops : HeaderOps H) (IsValid : H → Type 0) (image : H → List ℕ)
    (Kept : List ℕ → Type 0) : Type 0 where
  pub length-image : (h : H) → IsValid h → length (image h) ≡ ops.length_of h
  pub image-IsBytes : (h : H) → IsValid h → IsBytes (image h)
  pub write_image :
      (h : H) (at len : ℕ) (mem : Memory)
      → IsValid h
      → ops.length_of h ≤ len
      → at + ops.length_of h ≤ length mem
      → ops.write h at len mem ≡ ok tt (splice at (image h) mem)
  pub read_image :
      (h h' : H) (buf : List ℕ) (at len : ℕ)
      → IsBytes buf
      → IsValid h
      → ops.read buf at len h ≡ ok tt h'
      → IsValid h'
        × (ops.length_of h' ≤ len)
        × (at + ops.length_of h' ≤ length buf)
        × (Kept (drop at buf) → image h' ≡ take (ops.length_of h') (drop at buf))
