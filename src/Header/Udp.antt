-- ===== src/Header/Udp.antt =====
-- pgen/core/protocol/udp.h: the class `udp_header`, without its checksum.
pub mod Laws
pub mod Sum
use libpgen.Base.{ℕ, List, refl, ltb, ◌*◌}
use libpgen.Base.Bytes.{htons, ntohs}
use libpgen.Base.Run.{Exec, modify, throw_if, ◌>>=◌, ◌>>◌}
use libpgen.Header.Contract.{HeaderOps}
use libpgen.Layout.{Layout, u16, ◌⊗◌, via, Memory, cast, store}

-- `struct udp_struct`
pub record UdpStruct : Type 0 where
  pub src : ℕ
  pub dst : ℕ
  pub len : ℕ
  pub check : ℕ

abbrev pub udp_struct : Layout UdpStruct
udp_struct =
    via (u16 ⊗ u16 ⊗ u16 ⊗ u16) (λ p. (p.src, (p.dst, (p.len, p.check))))
      (λ t. record { src = t.0; dst = t.1.0; len = t.1.1.0; check = t.1.1.1 }) (λ p. refl)
      (λ t. refl)

pub record UdpHeader : Type 0 where
  pub src : ℕ
  pub dst : ℕ
  pub len : ℕ
  pub check : ℕ

abbrev pub min_length : ℕ
min_length = 2 * 4

unfoldable pub clear : Exec UdpHeader (Unit {0})
clear = modify (λ h. record { src = 53; dst = 53; len = min_length; check = 0 })

unfoldable pub write : UdpHeader → ℕ → ℕ → Exec Memory (Unit {0})
write h at buffer_len = do
  throw_if (ltb buffer_len min_length) "pgen::udp_header::read: buflen is too small"
  store
      (udp_struct.put
        (record { src = htons h.src; dst = htons h.dst; len = htons h.len; check = htons h.check }))
      at

unfoldable pub read : List ℕ → ℕ → ℕ → Exec UdpHeader (Unit {0})
read buf at buffer_len = do
  throw_if (ltb buffer_len min_length) "pgen::udp_header::read: buflen is too small"
  p ← cast udp_struct buf at
  modify (λ h. record {
    src = ntohs p.src;
    dst = ntohs p.dst;
    len = ntohs p.len;
    check = ntohs p.check;
  })

unfoldable pub length_of : UdpHeader → ℕ
length_of h = min_length

unfoldable pub ops : HeaderOps UdpHeader
ops = record { length_of = length_of; write = write; read = read }
