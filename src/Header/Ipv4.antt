-- ===== src/Header/Ipv4.antt =====
-- pgen/core/protocol/ip.h: the class `ipv4_header`, on a little-endian host. Behind the struct of 20
-- bytes stand the options, `hlen * 4 - 20` bytes of an array of 40.
pub mod Valid
pub mod Write
pub mod Read
pub mod Laws
pub mod Sum
use libpgen.Base.{ℕ, List, ◌+◌, ◌-◌, ◌*◌, ◌≡◌, refl, ltb, leb, length, replicate, if◌then◌else◌}
use libpgen.Base.Bytes.{htons, ntohs, sub_size}
use libpgen.Base.Run.{Run, ok, throw, fault, Exec, get, modify, throw_if, member, ◌>>=◌, ◌>>◌}
use libpgen.Base.Splice.{splice}
use libpgen.Base.Text.{codes}
use libpgen.Header.Contract.{HeaderOps}
use libpgen.Ipv4Address
use libpgen.Ipv4Address.{Ipv4Address, Pton}
use libpgen.Layout.{Layout, array, nibbles, u8, u16, ◌⊗◌, via, Memory, cast, store, fetch}
use libpgen.Util.{checksum}

-- `struct ip`
pub record Ip : Type 0 where
  pub hlen : ℕ
  pub version : ℕ
  pub tos : ℕ
  pub tot_len : ℕ
  pub id : ℕ
  pub frag_off : ℕ
  pub ttl : ℕ
  pub protocol : ℕ
  pub check : ℕ
  pub src : List ℕ
  pub dst : List ℕ

abbrev pub ip : Layout Ip
ip =
    via (nibbles ⊗ u8 ⊗ u16 ⊗ u16 ⊗ u16 ⊗ u8 ⊗ u8 ⊗ u16 ⊗ array 4 ⊗ array 4)
      (λ p. (
        (p.hlen, p.version),
        (
          p.tos,
          (p.tot_len, (p.id, (p.frag_off, (p.ttl, (p.protocol, (p.check, (p.src, p.dst))))))),
        ),
      ))
      (λ t. record {
        hlen = t.0.0;
        version = t.0.1;
        tos = t.1.0;
        tot_len = t.1.1.0;
        id = t.1.1.1.0;
        frag_off = t.1.1.1.1.0;
        ttl = t.1.1.1.1.1.0;
        protocol = t.1.1.1.1.1.1.0;
        check = t.1.1.1.1.1.1.1.0;
        src = t.1.1.1.1.1.1.1.1.0;
        dst = t.1.1.1.1.1.1.1.1.1;
      })
      (λ p. refl) (λ t. refl)

pub record Ipv4Header : Type 0 where
  pub version : ℕ
  pub hlen : ℕ
  pub tos : ℕ
  pub tot_len : ℕ
  pub id : ℕ
  pub frag_off : ℕ
  pub ttl : ℕ
  pub protocol : ℕ
  pub check : ℕ
  pub src : Ipv4Address
  pub dst : Ipv4Address
  pub option : List ℕ

abbrev pub min_length : ℕ
min_length = 20

abbrev pub max_length : ℕ
max_length = 60

unfoldable pub length_of : Ipv4Header → ℕ
length_of h = h.hlen * 4

abbrev on_src : {A : Type 0} → Exec Ipv4Address A → Exec Ipv4Header A
on_src = member (λ h. h.src) (λ a h. record h { src = a })

abbrev on_dst : {A : Type 0} → Exec Ipv4Address A → Exec Ipv4Header A
on_dst = member (λ h. h.dst) (λ a h. record h { dst = a })

unfoldable pub clear : Pton → Exec Ipv4Header (Unit {0})
clear inet_pton = do
  modify (λ h. record h {
    version = 4;
    hlen = 5;
    tos = 0x0;
    tot_len = 20;
    id = 0x0;
    frag_off = 0x0;
    ttl = 64;
    protocol = 0;
    check = 0;
  })
  on_src (Ipv4Address.set_str inet_pton (codes "0.0.0.0"))
  on_dst (Ipv4Address.set_str inet_pton (codes "0.0.0.0"))
  modify (λ h. record h { option = replicate (max_length - min_length) 0 })

-- The struct that `write` fills.
abbrev pub to_struct : Ipv4Header → Ip
to_struct h = record {
  version = h.version;
  hlen = h.hlen;
  tot_len = htons h.tot_len;
  tos = h.tos;
  id = htons h.id;
  frag_off = htons h.frag_off;
  ttl = h.ttl;
  protocol = h.protocol;
  check = htons h.check;
  src = Ipv4Address.copytoarray h.src;
  dst = Ipv4Address.copytoarray h.dst;
}

-- `length() - min_length` is a `size_t`: it wraps where the header says that it is shorter than 20.
abbrev pub option_length : Ipv4Header → ℕ
option_length h = sub_size (length_of h) min_length

-- The second half of `write`, behind the struct.
abbrev pub write_option : Ipv4Header → ℕ → Exec Memory (Unit {0})
write_option h at = do bytes ← fetch h.option 0 (option_length h); store bytes (at + min_length)

unfoldable pub write : Ipv4Header → ℕ → ℕ → Exec Memory (Unit {0})
unfolding length_of
write h at buffer_len = do
  throw_if (ltb buffer_len (h.hlen * 4)) "pgen::ipv4_header::read: buflen is too small"
  store (ip.put (to_struct h)) at
  write_option h at

-- The members that `read` takes from the struct.
abbrev pub of_struct : Ip → Ipv4Header → Ipv4Header
of_struct p h = record h {
  version = p.version;
  hlen = p.hlen;
  tot_len = ntohs p.tot_len;
  tos = p.tos;
  id = ntohs p.id;
  frag_off = ntohs p.frag_off;
  ttl = p.ttl;
  protocol = p.protocol;
  check = ntohs p.check;
  src = Ipv4Address.setbyarray p.src h.src;
  dst = Ipv4Address.setbyarray p.dst h.dst;
}

-- `memcpy(option, ..)`, into an array that does not grow.
abbrev pub store_option : List ℕ → Exec Ipv4Header (Unit {0})
store_option bytes h =
    if leb (length bytes) (length h.option)
    then ok tt (record h { option = splice 0 bytes h.option })
    else fault

-- The second half of `read`, once the members are taken from the struct.
abbrev pub read_option : List ℕ → ℕ → ℕ → Exec Ipv4Header (Unit {0})
read_option buf at buffer_len = do
  h ← get
  throw_if (ltb buffer_len (length_of h)) "pgen::ipv4_header::read: buflen is too small"
  bytes ← fetch buf (at + min_length) (option_length h)
  store_option bytes

unfoldable pub read : List ℕ → ℕ → ℕ → Exec Ipv4Header (Unit {0})
unfolding length_of
read buf at buffer_len = do
  throw_if (ltb buffer_len min_length) "pgen::ipv4_header::read: buflen is too small"
  p ← cast ip buf at
  modify (of_struct p)
  read_option buf at buffer_len

unfoldable pub ops : HeaderOps Ipv4Header
ops = record { length_of = length_of; write = write; read = read }

pub set_option : List ℕ → ℕ → Exec Ipv4Header (Unit {0})
set_option buffer bufferlen = do
  throw_if (ltb (max_length - min_length) bufferlen)
      "pgen::ipv4_header::set_option: option is too lerge"
  bytes ← fetch buffer 0 bufferlen
  store_option bytes

-- `uint8_t buffer[length()];` holds anything at first, and so does the `sum` of `checksum`: they are
-- the parameters `buffer` and `sum`.
pub calc_checksum : ℕ → List ℕ → Ipv4Header → Run Memory ℕ
calc_checksum sum buffer h =
    (do write h 0 (length buffer); bytes ← get; λ mem. ok (ntohs (checksum sum bytes)) mem) buffer
