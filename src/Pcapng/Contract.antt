-- ===== src/Pcapng/Contract.antt =====
-- What the virtual methods of a block class have to do for `read` to read what `write` wrote.
use libpgen.Base.{ℕ, ◌+◌, ◌≤◌, ◌≡◌, List, length, drop}
use libpgen.Base.Run.{ok}
use libpgen.Base.Splice.{splice}
use libpgen.Layout.{Memory, StandsAt}
use libpgen.Pcapng.{Block, BodyOps}

-- `fill b under` is the body as bytes, where `write_body` leaves the bytes of `under` between its
-- fields; `seen b bs` is the body that is read when `bs` are the bytes from the body on.
pub record Contract {B : Type 0} (ops : BodyOps B) (tag : ℕ) (IsValid : B → Type 0)
    (fill : B → List ℕ → List ℕ) (seen : B → List ℕ → B) : Type 0 where
  pub length-fill :
      (b : B) (under : List ℕ)
      → IsValid b
      → ops.body_length b ≤ length under
      → length (fill b under) ≡ ops.body_length b
  pub body_length-seen : (b : B) (bs : List ℕ) → ops.body_length (seen b bs) ≡ ops.body_length b
  pub write_fill :
      (b : B) (at len : ℕ) (mem : Memory)
      → IsValid b
      → ops.body_length b ≤ len
      → at + ops.body_length b ≤ length mem
      → ops.write_body b at len mem ≡ ok tt (splice at (fill b (drop at mem)) mem)
  pub read_fill :
      (b : B) (c : Block B) (under buf : List ℕ) (at len : ℕ)
      → IsValid b
      → c.type ≡ tag
      → ops.body_length b ≤ len
      → ops.body_length b ≤ length under
      → StandsAt (fill b under) buf at
      → ops.read_body buf at len c ≡ ok tt (record c { body = seen b (drop at buf) })
