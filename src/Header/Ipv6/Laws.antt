-- ===== src/Header/Ipv6/Laws.antt =====
-- The bytes of an IPv6 header, the contract that it keeps, and what it loses of a packet.
use libpgen.Base.{drop, ℕ, ◌+◌, ◌≤◌, ◌<◌, ◌≡◌, refl, sym, List, arith, length, take-length}
use libpgen.Base.Bytes.{htons, ntohs, htons-lt, ntohs-lt, ntohs-htons, htons-ntohs}
use libpgen.Base.Run.{ok, throw}
use libpgen.Header.Contract.{Contract}
use libpgen.Header.Ipv6.{Ipv6Struct, ipv6_struct, Ipv6Header, write, read, length_of, ops, clear}
use libpgen.Header.Struct.{struct-contract, struct-read-write, struct_short}
use libpgen.Ipv6Address
use libpgen.Ipv6Address.Laws
use libpgen.Layout.{Memory, checked_cast}

pub record IsValid (h : Ipv6Header) : Type 0 where
  pub version : h.version < 16
  pub payload_len : h.payload_len < 65536
  pub next_header : h.next_header < 256
  pub hop_limit : h.hop_limit < 256
  pub src : Laws.IsValid h.src
  pub dst : Laws.IsValid h.dst

-- The struct that `write` fills: traffic class and flow label are always zero.
abbrev pub to_struct : Ipv6Header → Ipv6Struct
to_struct h = record {
  trafic_class1 = 0;
  version = h.version;
  flow_level1 = 0;
  trafic_class2 = 0;
  flow_level2 = 0;
  payload_len = htons h.payload_len;
  next_header = h.next_header;
  hop_limit = h.hop_limit;
  src = Ipv6Address.copytoarray h.src;
  dst = Ipv6Address.copytoarray h.dst;
}

-- What `read` makes of the struct at the pointer.
abbrev of_struct : Ipv6Struct → Ipv6Header → Ipv6Header
of_struct p h = record {
  version = p.version;
  trafic_class = 0;
  flow_level = 0;
  payload_len = ntohs p.payload_len;
  next_header = p.next_header;
  hop_limit = p.hop_limit;
  src = Ipv6Address.setbyarray p.src h.src;
  dst = Ipv6Address.setbyarray p.dst h.dst;
}

unfoldable pub image : Ipv6Header → List ℕ
image h = ipv6_struct.put (to_struct h)

-- The traffic class and the flow label of the bytes are zero.
pub record IsPlain (bs : List ℕ) : Type 0 where
  pub trafic_class1 : (ipv6_struct.view bs).trafic_class1 ≡ 0
  pub trafic_class2 : (ipv6_struct.view bs).trafic_class2 ≡ 0
  pub flow_level1 : (ipv6_struct.view bs).flow_level1 ≡ 0
  pub flow_level2 : (ipv6_struct.view bs).flow_level2 ≡ 0

to_struct-Fits : (h : Ipv6Header) → IsValid h → ipv6_struct.Fits (to_struct h)
unfolding Ipv6Address.copytoarray
to_struct-Fits h v = (
  (omega arith, v.version),
  (
    (omega arith, omega arith),
    (
      omega arith,
      (htons-lt h.payload_len, (v.next_header, (v.hop_limit, (v.src.words, v.dst.words)))),
    ),
  ),
)

of_struct-IsValid :
    (p : Ipv6Struct) (h : Ipv6Header) → IsValid h → ipv6_struct.Fits p → IsValid (of_struct p h)
of_struct-IsValid p h v ((_, ver), (_, (_, (_, (n, (hop, (s, d))))))) = record {
  version = ver;
  payload_len = ntohs-lt p.payload_len;
  next_header = n;
  hop_limit = hop;
  src = Laws.setbyarray-IsValid p.src h.src s;
  dst = Laws.setbyarray-IsValid p.dst h.dst d;
}

to_struct-of_struct :
    (bs : List ℕ) (h : Ipv6Header)
    → IsPlain bs
    → ipv6_struct.Fits (ipv6_struct.view bs)
    → to_struct (of_struct (ipv6_struct.view bs) h) ≡ ipv6_struct.view bs
unfolding Ipv6Address.copytoarray Ipv6Address.setbyarray
to_struct-of_struct bs h k ((_, _), (_, (_, (l, (_, (_, (s, d))))))) =
    let p = ipv6_struct.view bs in
    λ i. record {
      trafic_class1 = sym k.trafic_class1 i;
      version = p.version;
      flow_level1 = sym k.flow_level1 i;
      trafic_class2 = sym k.trafic_class2 i;
      flow_level2 = sym k.flow_level2 i;
      payload_len = htons-ntohs p.payload_len l i;
      next_header = p.next_header;
      hop_limit = p.hop_limit;
      src = take-length p.src 8 (omega (arith, s.0)) i;
      dst = take-length p.dst 8 (omega (arith, d.0)) i;
    }

of_struct-to_struct :
    (h h0 : Ipv6Header)
    → IsValid h
    → h.trafic_class ≡ 0
    → h.flow_level ≡ 0
    → of_struct (to_struct h) h0 ≡ h
of_struct-to_struct h h0 v t f = λ i. record {
  version = h.version;
  trafic_class = sym t i;
  flow_level = sym f i;
  payload_len = ntohs-htons h.payload_len v.payload_len i;
  next_header = h.next_header;
  hop_limit = h.hop_limit;
  src = Laws.setbyarray-copytoarray h0.src v.src i;
  dst = Laws.setbyarray-copytoarray h0.dst v.dst i;
}

-- The contract of `header`; the bytes that are read come back only with a zero traffic class and
-- flow label.
pub contract : Contract ops IsValid image IsPlain
unfolding ops write read length_of image
contract =
    struct-contract ipv6_struct _ _ to_struct of_struct IsValid IsPlain to_struct-Fits
      of_struct-IsValid to_struct-of_struct

-- A valid header with no traffic class and no flow label, written into memory at whatever offset,
-- is read back by `read` into whatever object, if the length given is 40 or more and the memory has
-- 40 bytes there.
pub read-write_ipv6 :
    (h h0 : Ipv6Header) (at len : ℕ) (mem : Memory)
    → IsValid h
    → h.trafic_class ≡ 0
    → h.flow_level ≡ 0
    → 40 ≤ len
    → at + 40 ≤ length mem
    → (mem' : Memory) × (write h at len mem ≡ ok tt mem') × (read mem' at len h0 ≡ ok tt h)
unfolding write read
read-write_ipv6 h h0 at len mem v t f l b =
    struct-read-write ipv6_struct _ _ to_struct of_struct IsValid IsPlain to_struct-Fits h h0 at len
      mem v (of_struct-to_struct h h0 v t f) l b

-- Below 40 bytes `write` and `read` throw, and change neither the memory nor the object.
pub short_throws :
    (h : Ipv6Header) (at len : ℕ) (buf mem : List ℕ)
    → len < 40
    → (write h at len mem ≡ throw "pgen::ipv6_header::write: bufferlen is too small" mem)
      × (read buf at len h ≡ throw "pgen::ipv6_header::read: bufferlen is too small" h)
unfolding write read
short_throws h at len buf mem l =
    struct_short ipv6_struct _ _ to_struct of_struct h at len buf mem l

-- Two headers that differ in traffic class and flow label alone are written alike, so neither
-- reaches the wire.
pub write_drops_flow :
    (h : Ipv6Header) (trafic_class flow_level at len : ℕ) (mem : Memory)
    → write (record h { trafic_class = trafic_class; flow_level = flow_level }) at len mem
      ≡ write h at len mem
unfolding write
write_drops_flow h trafic_class flow_level at len mem = refl

-- Enough length and enough memory: `read` returns.
pub read_total :
    (h : Ipv6Header) (buf : List ℕ) (at len : ℕ)
    → 40 ≤ len
    → at + 40 ≤ length buf
    → (h' : Ipv6Header) × (read buf at len h ≡ ok tt h')
unfolding read
read_total h buf at len l b = (
  of_struct (ipv6_struct.view (drop at buf)) h,
  checked_cast ipv6_struct 40 _ of_struct at len buf h l b,
)

abbrev pub cleared : Ipv6Header → Ipv6Header
cleared h = record {
  version = 6;
  trafic_class = 0;
  flow_level = 0;
  payload_len = 0;
  next_header = 6;
  hop_limit = 64;
  src = Ipv6Address.clear h.src;
  dst = Ipv6Address.clear h.dst;
}

pub clear_lem : (h : Ipv6Header) → clear h ≡ ok tt (cleared h)
unfolding clear
clear_lem h = refl

pub cleared-IsValid : (h : Ipv6Header) → IsValid (cleared h)
cleared-IsValid h = record {
  version = omega arith;
  payload_len = omega arith;
  next_header = omega arith;
  hop_limit = omega arith;
  src = Laws.clear-IsValid h.src;
  dst = Laws.clear-IsValid h.dst;
}
