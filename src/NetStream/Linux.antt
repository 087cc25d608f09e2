-- ===== src/NetStream/Linux.antt =====
-- pgen/io/net_stream.h where `PGEN_LINUX` is defined: `open` of an interface, and `recv`.
use libpgen.Base.{ℕ, Bool, List, Option, take}
use libpgen.Base.Run.{Exec, Run, ok, throw, fault, raise, pure, throw_if, ◌>>=◌, ◌>>◌}
use libpgen.NetStream
use libpgen.NetStream.{Net, Calls, on_fd, checked, is_negative, read}
use libpgen.Stream.{OpenMode, pcap_read, pcap_write, pcapng_read, pcapng_write, netif}

-- The platform's `struct ifreq`, `struct sockaddr_ll` and the calls that take them.
pub record Interfaces (Kernel : Type 0) : Type 1 where
  pub Ifreq : Type 0
  -- All zero, and the name copied.
  pub of_name : List ℕ → Ifreq
  -- `ifr_flags = ifr_flags | IFF_PROMISC`
  pub promiscuous : Ifreq → Ifreq
  -- `socket(AF_PACKET, SOCK_RAW, htons(ETH_P_ALL))`
  pub socket : Kernel → Option ℕ × Kernel
  -- `::ioctl` with SIOCGIFINDEX, SIOCGIFFLAGS and SIOCSIFFLAGS: the struct as the kernel leaves it.
  pub get_index : Ifreq → ℕ → Kernel → Option Ifreq × Kernel
  pub get_flags : Ifreq → ℕ → Kernel → Option Ifreq × Kernel
  pub set_flags : Ifreq → ℕ → Kernel → Option Ifreq × Kernel
  -- `::bind` to the address of the family AF_PACKET with `ifr_ifindex` of the struct.
  pub bind : Ifreq → ℕ → Kernel → Option (Unit {0}) × Kernel

module _ {Kernel : Type 0} (os : Interfaces Kernel) where
  abbrev socket : Exec (Net Kernel) (Unit {0})
  socket s = ok tt (record { fd = (os.socket s.kernel).0; kernel = (os.socket s.kernel).1 })

  abbrev is_closed : Exec (Net Kernel) Bool
  is_closed s = ok (is_negative s.fd) s

  unfoldable pub open_netif : List ℕ → Exec (Net Kernel) (Unit {0})
  open_netif name = do
    socket
    closed ← is_closed
    throw_if closed "pgen::net_stream::open_netif: "
    ifreq ← checked "pgen::net_stream::ioctl: " (os.get_index (os.of_name (take 15 name)))
    checked "pgen::net_stream::bind: " (os.bind ifreq)
    ifreq ← checked "pgen::net_stream::ioctl: " (os.get_flags ifreq)
    checked "pgen::net_stream::ioctl: " (os.set_flags (os.promiscuous ifreq))
    pure tt

  unfoldable pub open_stream : List ℕ → OpenMode → Exec (Net Kernel) (Unit {0})
  unfolding open_netif
  open_stream name netif = open_netif name
  open_stream name pcap_read = raise "pgen::net_stream::open: unknown mode"
  open_stream name pcap_write = raise "pgen::net_stream::open: unknown mode"
  open_stream name pcapng_read = raise "pgen::net_stream::open: unknown mode"
  open_stream name pcapng_write = raise "pgen::net_stream::open: unknown mode"

  -- The constructor with a name. It delegates to the one without, so where `open` throws the object
  -- is destructed.
  unfoldable pub construct : Calls Kernel → List ℕ → OpenMode → Kernel → Run (Net Kernel) (Unit {0})
  unfolding open_stream
  construct calls name mode kernel = elim (open_stream name mode (NetStream.construct kernel)) [
    | ok _ s ↦ ok tt s
    | throw e s ↦ elim (NetStream.destruct calls s) [
      | ok _ s' ↦ throw e s'
      | throw _ s' ↦ throw e s'
      | fault ↦ fault
    ]
    | fault ↦ fault
  ]

-- What `read` returns is not negative, so the test of `recv` never throws.
unfoldable pub recv : {Kernel : Type 0} → Calls Kernel → ℕ → ℕ → Exec (Net Kernel) (Option (List ℕ))
unfolding read
recv calls n bufferlen = read calls n bufferlen
