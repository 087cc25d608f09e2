-- ===== src/Header/Ipv6.antt =====
-- pgen/core/protocol/ipv6.h: the class `ipv6_header`, on a little-endian host.
pub mod Laws
use libpgen.Base.{ℕ, List, refl, ltb}
use libpgen.Base.Bytes.{htons, ntohs}
use libpgen.Base.Run.{Exec, modify, throw_if, ◌>>=◌, ◌>>◌}
use libpgen.Header.Contract.{HeaderOps}
use libpgen.Ipv6Address
use libpgen.Ipv6Address.{Ipv6Address}
use libpgen.Layout.{Layout, nibbles, words, u8, u16, ◌⊗◌, via, Memory, cast, store}

-- `struct ipv6_struct`
pub record Ipv6Struct : Type 0 where
  pub trafic_class1 : ℕ
  pub version : ℕ
  pub flow_level1 : ℕ
  pub trafic_class2 : ℕ
  pub flow_level2 : ℕ
  pub payload_len : ℕ
  pub next_header : ℕ
  pub hop_limit : ℕ
  pub src : List ℕ
  pub dst : List ℕ

abbrev pub ipv6_struct : Layout Ipv6Struct
ipv6_struct =
    via (nibbles ⊗ nibbles ⊗ u16 ⊗ u16 ⊗ u8 ⊗ u8 ⊗ words 8 ⊗ words 8)
      (λ p. (
        (p.trafic_class1, p.version),
        (
          (p.flow_level1, p.trafic_class2),
          (p.flow_level2, (p.payload_len, (p.next_header, (p.hop_limit, (p.src, p.dst))))),
        ),
      ))
      (λ t. record {
        trafic_class1 = t.0.0;
        version = t.0.1;
        flow_level1 = t.1.0.0;
        trafic_class2 = t.1.0.1;
        flow_level2 = t.1.1.0;
        payload_len = t.1.1.1.0;
        next_header = t.1.1.1.1.0;
        hop_limit = t.1.1.1.1.1.0;
        src = t.1.1.1.1.1.1.0;
        dst = t.1.1.1.1.1.1.1;
      })
      (λ p. refl) (λ t. refl)

pub record Ipv6Header : Type 0 where
  pub version : ℕ
  pub trafic_class : ℕ
  pub flow_level : ℕ
  pub payload_len : ℕ
  pub next_header : ℕ
  pub hop_limit : ℕ
  pub src : Ipv6Address
  pub dst : Ipv6Address

abbrev pub min_length : ℕ
min_length = 40

unfoldable pub clear : Exec Ipv6Header (Unit {0})
clear = modify (λ h. record {
  version = 6;
  trafic_class = 0;
  flow_level = 0;
  payload_len = 0;
  next_header = 6;
  hop_limit = 64;
  src = Ipv6Address.clear h.src;
  dst = Ipv6Address.clear h.dst;
})

unfoldable pub write : Ipv6Header → ℕ → ℕ → Exec Memory (Unit {0})
write h at bufferlen = do
  throw_if (ltb bufferlen min_length) "pgen::ipv6_header::write: bufferlen is too small"
  store
      (ipv6_struct.put (record {
        version = h.version;
        trafic_class1 = 0;
        trafic_class2 = 0;
        flow_level1 = 0;
        flow_level2 = 0;
        payload_len = htons h.payload_len;
        next_header = h.next_header;
        hop_limit = h.hop_limit;
        src = Ipv6Address.copytoarray h.src;
        dst = Ipv6Address.copytoarray h.dst;
      }))
      at

unfoldable pub read : List ℕ → ℕ → ℕ → Exec Ipv6Header (Unit {0})
read buf at bufferlen = do
  throw_if (ltb bufferlen min_length) "pgen::ipv6_header::read: bufferlen is too small"
  p ← cast ipv6_struct buf at
  modify (λ h. record h {
    version = p.version;
    trafic_class = 0;
    flow_level = 0;
    payload_len = ntohs p.payload_len;
    next_header = p.next_header;
    hop_limit = p.hop_limit;
    src = Ipv6Address.setbyarray p.src h.src;
    dst = Ipv6Address.setbyarray p.dst h.dst;
  })

unfoldable pub length_of : Ipv6Header → ℕ
length_of h = min_length

unfoldable pub ops : HeaderOps Ipv6Header
ops = record { length_of = length_of; write = write; read = read }
