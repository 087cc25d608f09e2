-- ===== src/NetStream.antt =====
-- pgen/io/net_stream.h: the class `net_stream`. The system calls are parameters; -1 as a call's
-- result is `none`. What `open_netif` does on each platform is in `Linux` and `Bsd`.
pub mod Linux
pub mod Bsd
pub mod Laws
use libpgen.Base.{
  String, ℕ, zero, suc, ◌-◌, List, Bool, true, false, Option, none, some, length, ◌==◌, not,
  if◌then◌else◌,
}
use libpgen.Base.Bytes.{size_mod}
use libpgen.Base.Run.{Exec, ok, raise, pure, modify, throw_if, ◌>>=◌, ◌>>◌}

-- The member `_fd`, where `none` is -1, and the kernel, which the calls change.
pub record Net (Kernel : Type 0) : Type 0 where
  pub fd : Option ℕ
  pub kernel : Kernel

-- The calls on a descriptor that both platforms make.
pub record Calls (Kernel : Type 0) : Type 0 where
  pub write : ℕ → List ℕ → Kernel → Option ℕ × Kernel
  -- `::read(fd, buffer, n)`: the bytes that it puts into the buffer; their number is the result.
  pub read : ℕ → ℕ → Kernel → Option (List ℕ) × Kernel
  pub close : ℕ → Kernel → Kernel

-- A call on `_fd`. On -1 a kernel refuses it.
abbrev pub on_fd :
    {Kernel A : Type 0} → (ℕ → Kernel → Option A × Kernel) → Exec (Net Kernel) (Option A)
on_fd call s = elim s.fd [
  | none ↦ ok none s
  | some fd ↦ ok (call fd s.kernel).0 (record s { kernel = (call fd s.kernel).1 })
]

abbrev pub eintr : ℕ
eintr = 4

-- `static_cast<size_t>` of a call's result.
abbrev pub to_size : Option ℕ → ℕ
to_size none = size_mod - 1
to_size (some n) = n

abbrev pub is_negative : {A : Type 0} → Option A → Bool
is_negative none = true
is_negative (some a) = false

-- The methods `ioctl` and `bind`: a call whose negative result is thrown.
abbrev pub checked :
    {Kernel A : Type 0} → String → (ℕ → Kernel → Option A × Kernel) → Exec (Net Kernel) A
checked e call = on_fd call >>= λ r. elim r [ none ↦ raise e | some a ↦ pure a ]

pub construct : {Kernel : Type 0} → Kernel → Net Kernel
construct kernel = record { fd = none; kernel = kernel }

module _ {Kernel : Type 0} (calls : Calls Kernel) where
  unfoldable pub write : List ℕ → Exec (Net Kernel) (Unit {0})
  write buffer = do
    write_len ← on_fd (λ fd. calls.write fd buffer)
    if not (to_size write_len == length buffer)
        then raise "pgen::net_stream::write::write: write comletion faild"
        else throw_if (is_negative write_len) "pgen::net_stream::write::write: "

  -- The method calls itself where the number of bytes read is `EINTR`; it does so for at most as many
  -- rounds as the number says, and the result is none where they were too few.
  unfoldable pub read : ℕ → ℕ → Exec (Net Kernel) (Option (List ℕ))
  read zero bufferlen = pure none
  read (suc n) bufferlen = on_fd (λ fd. calls.read fd bufferlen) >>= λ r. elim r [
    | none ↦ raise "pgen::net_stream::read::read: "
    | some bytes ↦ elim (length bytes == eintr) [
      | true ↦ read n bufferlen
      | false ↦ pure (some bytes)
    ]
  ]

  unfoldable pub close : Exec (Net Kernel) (Unit {0})
  close s = elim s.fd [
    | none ↦ ok tt s
    | some fd ↦ ok tt (record { fd = none; kernel = calls.close fd s.kernel })
  ]

  pub destruct : Exec (Net Kernel) (Unit {0})
  unfolding close
  destruct = close

  unfoldable pub send : List ℕ → Exec (Net Kernel) (Unit {0})
  unfolding write
  send buffer = write buffer
