-- ===== src/NetStream/Bsd/Opening.antt =====
-- pgen/io/net_stream.h where `PGEN_OSX` is defined: `open` of an interface.
use libpgen.Base.{
  ℕ, Bool, zero, suc, ◌+◌, ◌-◌, List, ◌++◌, Option, none, some, length, take, replicate, ◌==◌,
  if◌then◌else◌,
}
use libpgen.Base.Run.{Exec, ok, raise, pure, modify, throw_if, ◌>>=◌, ◌>>◌}
use libpgen.Layout.{Memory}
use libpgen.NetStream.{Net, checked, is_negative}
use libpgen.NetStream.Bsd.{BpfNet, on_net}
use libpgen.Stream.{OpenMode, pcap_read, pcap_write, pcapng_read, pcapng_write, netif}

-- The platform's calls on the devices of the packet filter.
pub record Devices (Kernel : Type 0) : Type 0 where
  -- `::open` of the device with the number.
  pub open_device : ℕ → Kernel → Option ℕ × Kernel
  -- `::ioctl` with BIOCGBLEN, and with BIOCSBLEN, which may change the length.
  pub get_length : ℕ → Kernel → Option ℕ × Kernel
  pub set_length : ℕ → ℕ → Kernel → Option ℕ × Kernel
  -- `::ioctl` with BIOCSETIF, of the interface with the name.
  pub set_interface : List ℕ → ℕ → Kernel → Option (Unit {0}) × Kernel
  pub promiscuous : ℕ → Kernel → Option (Unit {0}) × Kernel
  pub immediate : ℕ → Kernel → Option (Unit {0}) × Kernel
  pub see_sent : ℕ → Kernel → Option (Unit {0}) × Kernel
  pub flush : ℕ → Kernel → Option (Unit {0}) × Kernel
  pub header_complete : ℕ → Kernel → Option (Unit {0}) × Kernel

-- `std::vector::resize`
abbrev pub resize : ℕ → Memory → Memory
resize n buffer = take n buffer ++ replicate (n - length buffer) 0

module _ {Kernel : Type 0} (os : Devices Kernel) where
  -- The loop over the devices from number `i` on, `n` of them.
  unfoldable pub open_devices : ℕ → ℕ → Exec (Net Kernel) (Unit {0})
  open_devices zero i s = ok tt s
  open_devices (suc n) i s =
      let r = os.open_device i s.kernel in
      elim r.0 [
        | none ↦ open_devices n (i + 1) (record { fd = none; kernel = r.1 })
        | some fd ↦ ok tt (record { fd = some fd; kernel = r.1 })
      ]

  abbrev ioctl : {A : Type 0} → (ℕ → Kernel → Option A × Kernel) → Exec (BpfNet Kernel) A
  ioctl call = on_net (checked "pgen::net_stream::ioctl: " call)

  abbrev is_closed : Exec (BpfNet Kernel) Bool
  is_closed s = ok (is_negative s.net.fd) s

  unfoldable pub open_netif : List ℕ → ℕ → Exec (BpfNet Kernel) (Unit {0})
  unfolding open_devices
  open_netif name buffer_size = do
    on_net (open_devices 4 0)
    closed ← is_closed
    throw_if closed "pgen::net_stream::open_netif::open: "
    buffer_size ← (if buffer_size == 0 then ioctl os.get_length else pure buffer_size)
    modify (λ s. record s { buffer = resize buffer_size s.buffer })
    buffer_size ← ioctl (os.set_length buffer_size)
    ioctl (os.set_interface (take 16 name))
    ioctl os.promiscuous
    ioctl os.immediate
    ioctl os.see_sent
    ioctl os.flush
    ioctl os.header_complete
    modify (λ s. record s { buffer_point = none })

  unfoldable pub open_stream : List ℕ → OpenMode → Exec (BpfNet Kernel) (Unit {0})
  unfolding open_netif
  open_stream name netif = open_netif name 0
  open_stream name pcap_read = raise "pgen::net_stream::open: unknown mode"
  open_stream name pcap_write = raise "pgen::net_stream::open: unknown mode"
  open_stream name pcapng_read = raise "pgen::net_stream::open: unknown mode"
  open_stream name pcapng_write = raise "pgen::net_stream::open: unknown mode"
