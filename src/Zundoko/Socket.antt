-- ===== src/Zundoko/Socket.antt =====
-- example/zundoko/zundoko.h: the class `Socket`. The system calls are parameters; -1 as a call's
-- result is `none`. A method whose call fails ends the program: `perror(text); exit(-1);` is
-- `raise text`, which no code of the two programs handles.
use libpgen.Base.{String, ℕ, List, Option, none, some, take}
use libpgen.Base.Bytes.{htons}
use libpgen.Base.Int.{ℤ, int_u16}
use libpgen.Base.Run.{Exec, ok, raise, pure, ◌>>=◌}

-- `struct sockaddr_in`, with its two numbers as they stand in memory.
pub record SockaddrIn : Type 0 where
  pub sin_port : ℕ
  pub sin_addr : ℕ

-- The address of a port number, whose type is `int`, and an IP address.
abbrev pub sockaddr : ℤ → ℕ → SockaddrIn
sockaddr port address = record { sin_port = htons (int_u16 port); sin_addr = address }

pub record Calls (Kernel : Type 0) : Type 0 where
  pub socket : ℕ → ℕ → ℕ → Kernel → Option ℕ × Kernel
  pub close : ℕ → Kernel → Kernel
  pub bind : Option ℕ → SockaddrIn → Kernel → Option (Unit {0}) × Kernel
  -- `::ioctl` with SIOCGIFADDR and an interface's name: the address put into the struct.
  pub get_address : Option ℕ → List ℕ → Kernel → Option ℕ × Kernel
  pub sendto : Option ℕ → List ℕ → SockaddrIn → Kernel → Option ℕ × Kernel
  -- The bytes that the call puts into the buffer, whose number is its result, and their sender.
  pub recvfrom : Option ℕ → ℕ → Kernel → Option (List ℕ × SockaddrIn) × Kernel

-- The member `fd`, where `none` is a negative number, and the kernel, which the calls change.
pub record Sock (Kernel : Type 0) : Type 0 where
  pub fd : Option ℕ
  pub kernel : Kernel

-- A call, and the end of the program where its result is negative.
abbrev pub or_exit :
    {Kernel A : Type 0} → String → (Option ℕ → Kernel → Option A × Kernel) → Exec (Sock Kernel) A
or_exit text call s = elim (call s.fd s.kernel).0 [
  | none ↦ raise text (record s { kernel = (call s.fd s.kernel).1 })
  | some a ↦ ok a (record s { kernel = (call s.fd s.kernel).1 })
]

module _ {Kernel : Type 0} (calls : Calls Kernel) where
  -- The constructor with arguments is a call of this method.
  unfoldable pub socket : ℕ → ℕ → ℕ → Exec (Sock Kernel) (Unit {0})
  socket domain type protocol s = elim (calls.socket domain type protocol s.kernel).0 [
    | none ↦
        raise "socket"
          (record s { fd = none; kernel = (calls.socket domain type protocol s.kernel).1 })
    | some fd ↦
        ok tt (record s { fd = some fd; kernel = (calls.socket domain type protocol s.kernel).1 })
  ]

  -- The destructor is a call of this method. It leaves `fd` as it is.
  unfoldable pub close : Exec (Sock Kernel) (Unit {0})
  close s = elim s.fd [
    | none ↦ ok tt s
    | some fd ↦ ok tt (record s { kernel = calls.close fd s.kernel })
  ]

  abbrev pub bind : SockaddrIn → Exec (Sock Kernel) (Unit {0})
  bind addr = or_exit "bind" (λ fd. calls.bind fd addr)

  -- `ioctl(SIOCGIFADDR, &ifr)`
  abbrev pub ioctl : List ℕ → Exec (Sock Kernel) ℕ
  ioctl ifr_name = or_exit "ioctl" (λ fd. calls.get_address fd ifr_name)

  abbrev pub sendto : List ℕ → SockaddrIn → Exec (Sock Kernel) ℕ
  sendto message dst_addr = or_exit "sendto" (λ fd. calls.sendto fd message dst_addr)

  -- At most `length` bytes come, as the call promises.
  abbrev pub recvfrom : ℕ → Exec (Sock Kernel) (List ℕ × SockaddrIn)
  recvfrom length = do
    received ← or_exit "recvfrom" (λ fd. calls.recvfrom fd length)
    pure (take length received.0, received.1)
