-- ===== src/Header/Ethernet.antt =====
-- pgen/core/protocol/ethernet.h: the class `ethernet_header`.
pub mod Laws
use libpgen.Base.{ℕ, List, refl, ltb, ◌+◌, ◌*◌}
use libpgen.Base.Bytes.{htons, ntohs}
use libpgen.Base.Run.{Run, ok, throw, fault, Exec, modify, throw_if, member, ◌>>=◌, ◌>>◌}
use libpgen.Base.Text.{codes}
use libpgen.Header.Contract.{HeaderOps}
use libpgen.Layout.{Layout, array, u16, ◌⊗◌, via, Memory, cast, store}
use libpgen.MacAddress
use libpgen.MacAddress.{MacAddress, mac_length}

-- `struct eth`, as it lies in a frame.
pub record Eth : Type 0 where
  pub dst : List ℕ
  pub src : List ℕ
  pub type : ℕ

abbrev pub eth : Layout Eth
eth =
    via (array mac_length ⊗ array mac_length ⊗ u16) (λ p. (p.dst, (p.src, p.type)))
      (λ t. record { dst = t.0; src = t.1.0; type = t.1.1 }) (λ p. refl) (λ t. refl)

pub record EthernetHeader : Type 0 where
  pub dst : MacAddress
  pub src : MacAddress
  pub type : ℕ

abbrev pub min_length : ℕ
min_length = mac_length * 2 + 2

abbrev on_src : {A : Type 0} → Exec MacAddress A → Exec EthernetHeader A
on_src = member (λ h. h.src) (λ a h. record h { src = a })

abbrev on_dst : {A : Type 0} → Exec MacAddress A → Exec EthernetHeader A
on_dst = member (λ h. h.dst) (λ a h. record h { dst = a })

unfoldable pub clear : Exec EthernetHeader (Unit {0})
clear = do
  on_src (MacAddress.set_str (codes "00:00:00:00:00:00"))
  on_dst (MacAddress.set_str (codes "00:00:00:00:00:00"))
  modify (λ h. record h { type = 0x0000 })

unfoldable pub write : EthernetHeader → ℕ → ℕ → Exec Memory (Unit {0})
write h at bufferlen = do
  throw_if (ltb bufferlen min_length) "pgen::ethernet_header::write: buflen is too small"
  store
      (eth.put (record {
        src = MacAddress.copytoarray h.src;
        dst = MacAddress.copytoarray h.dst;
        type = htons h.type;
      }))
      at

unfoldable pub read : List ℕ → ℕ → ℕ → Exec EthernetHeader (Unit {0})
read buf at bufferlen = do
  throw_if (ltb bufferlen eth.size) "pgen::ethernet_header::read: Buffer length is too small"
  p ← cast eth buf at
  modify (λ h. record h {
    src = MacAddress.setbyarray p.src h.src;
    dst = MacAddress.setbyarray p.dst h.dst;
    type = ntohs p.type;
  })

unfoldable pub length_of : EthernetHeader → ℕ
length_of h = min_length

unfoldable pub ops : HeaderOps EthernetHeader
ops = record { length_of = length_of; write = write; read = read }
