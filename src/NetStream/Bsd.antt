-- ===== src/NetStream/Bsd.antt =====
-- pgen/io/net_stream.h where `PGEN_OSX` is defined: `recv` takes one packet after the other off the
-- records of the packet filter that one `read` put into the buffer.
pub mod Walk
pub mod Opening
use libpgen.Base.{ℕ, ◌+◌, List, Option, none, some, length, leb, ltb, if◌then◌else◌, refl}
use libpgen.Base.Run.{Exec, Run, ok, fault, pure, undefined, member, modify, get, ◌>>=◌, ◌>>◌}
use libpgen.Base.Splice.{splice}
use libpgen.Layout.{Layout, Memory, array, u16, u32, ◌⊗◌, via, cast, fetch, store}
use libpgen.NetStream
use libpgen.NetStream.{Net, Calls}

-- `struct bpf_header`; the timestamp as its eight bytes.
pub record BpfHeader : Type 0 where
  pub timestamp : List ℕ
  pub caplen : ℕ
  pub datalen : ℕ
  pub hdrlen : ℕ

abbrev pub bpf_header : Layout BpfHeader
bpf_header =
    via (array 8 ⊗ u32 ⊗ u32 ⊗ u16) (λ h. (h.timestamp, (h.caplen, (h.datalen, h.hdrlen))))
      (λ t. record { timestamp = t.0; caplen = t.1.0; datalen = t.1.1.0; hdrlen = t.1.1.1 })
      (λ h. refl) (λ t. refl)

-- The members. A null `_buffer_point` is `none`, any other an offset into `_buffer`.
pub record BpfNet (Kernel : Type 0) : Type 0 where
  pub net : Net Kernel
  pub buffer : Memory
  pub buffer_point : Option ℕ
  pub buffer_size_readed : ℕ

abbrev pub on_net : {Kernel A : Type 0} → Exec (Net Kernel) A → Exec (BpfNet Kernel) A
on_net = member (λ s. s.net) (λ n s. record s { net = n })

module _ {Kernel : Type 0} (calls : Calls Kernel) where
  abbrev pub finished : {A : Type 0} → Option A → Exec (BpfNet Kernel) A
  finished none = undefined
  finished (some a) = pure a

  -- The first `if` of `recv`; the `read` is given `n` rounds.
  unfoldable pub fill : ℕ → Exec (BpfNet Kernel) ℕ
  fill n s = elim s.buffer_point [
    | some point ↦ ok point s
    | none ↦
        (do
          r ← on_net (NetStream.read calls n (length s.buffer))
          bytes ← finished r
          member (λ s. s.buffer) (λ b s. record s { buffer = b }) (store bytes 0)
          modify (λ s. record s { buffer_point = some 0; buffer_size_readed = length bytes })
          pure 0)
          s
  ]

  -- Where the pointer goes behind a packet. A pointer behind the end of the buffer is undefined.
  abbrev pub advance : ℕ → Exec (BpfNet Kernel) (Unit {0})
  advance point s =
      if leb point (length s.buffer)
      then ok tt
          (record s { buffer_point = if leb s.buffer_size_readed point then none else some point })
      else fault

  unfoldable pub recv : ℕ → ℕ → Exec (BpfNet Kernel) (List ℕ)
  unfolding fill
  recv n bufferlen = do
    point ← fill n
    s ← get
    bh ← cast bpf_header s.buffer point
    bytes ←
        fetch s.buffer (point + bh.hdrlen)
          (if ltb bufferlen bh.caplen then bufferlen else bh.caplen)
    advance (point + bh.hdrlen + bh.caplen)
    pure bytes
