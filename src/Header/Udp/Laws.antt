-- ===== src/Header/Udp/Laws.antt =====
-- The bytes of a UDP header, and the contract that it keeps.
use libpgen.Base.{drop, ℕ, ◌+◌, ◌≤◌, ◌<◌, ◌≡◌, List, length}
use libpgen.Base.Bytes.{htons, ntohs, htons-lt, ntohs-lt, ntohs-htons, htons-ntohs}
use libpgen.Base.Run.{ok, throw}
use libpgen.Header.Contract.{Contract}
use libpgen.Header.Struct.{struct-contract, struct-read-write, struct_short}
use libpgen.Header.Udp.{UdpStruct, udp_struct, UdpHeader, write, read, length_of, ops}
use libpgen.Layout.{Memory, checked_cast}

pub record IsValid (h : UdpHeader) : Type 0 where
  pub src : h.src < 65536
  pub dst : h.dst < 65536
  pub len : h.len < 65536
  pub check : h.check < 65536

-- The struct that `write` fills.
abbrev pub to_struct : UdpHeader → UdpStruct
to_struct h = record {
  src = htons h.src;
  dst = htons h.dst;
  len = htons h.len;
  check = htons h.check;
}

-- What `read` makes of the struct at the pointer.
abbrev of_struct : UdpStruct → UdpHeader → UdpHeader
of_struct p h = record {
  src = ntohs p.src;
  dst = ntohs p.dst;
  len = ntohs p.len;
  check = ntohs p.check;
}

unfoldable pub image : UdpHeader → List ℕ
image h = udp_struct.put (to_struct h)

to_struct-Fits : (h : UdpHeader) → IsValid h → udp_struct.Fits (to_struct h)
to_struct-Fits h v = (htons-lt h.src, (htons-lt h.dst, (htons-lt h.len, htons-lt h.check)))

of_struct-IsValid :
    (p : UdpStruct) (h : UdpHeader) → IsValid h → udp_struct.Fits p → IsValid (of_struct p h)
of_struct-IsValid p h v f = record {
  src = ntohs-lt p.src;
  dst = ntohs-lt p.dst;
  len = ntohs-lt p.len;
  check = ntohs-lt p.check;
}

to_struct-of_struct :
    (p : UdpStruct) (h : UdpHeader) → udp_struct.Fits p → to_struct (of_struct p h) ≡ p
to_struct-of_struct p h (s, (d, (l, c))) = λ i. record {
  src = htons-ntohs p.src s i;
  dst = htons-ntohs p.dst d i;
  len = htons-ntohs p.len l i;
  check = htons-ntohs p.check c i;
}

of_struct-to_struct : (h h0 : UdpHeader) → IsValid h → of_struct (to_struct h) h0 ≡ h
of_struct-to_struct h h0 v = λ i. record {
  src = ntohs-htons h.src v.src i;
  dst = ntohs-htons h.dst v.dst i;
  len = ntohs-htons h.len v.len i;
  check = ntohs-htons h.check v.check i;
}

-- The contract of `header`; every bit of the eight bytes has a member.
pub contract : Contract ops IsValid image (λ _. Unit)
unfolding ops write read length_of image
contract =
    struct-contract udp_struct _ _ to_struct of_struct IsValid (λ _. Unit) to_struct-Fits
      of_struct-IsValid (λ bs h k f. to_struct-of_struct (udp_struct.view bs) h f)

-- A valid header written into memory, at whatever offset, is read back by `read` into whatever
-- object, if the length given is 8 or more and the memory has 8 bytes there.
pub read-write_udp :
    (h h0 : UdpHeader) (at len : ℕ) (mem : Memory)
    → IsValid h
    → 8 ≤ len
    → at + 8 ≤ length mem
    → (mem' : Memory) × (write h at len mem ≡ ok tt mem') × (read mem' at len h0 ≡ ok tt h)
unfolding write read
read-write_udp h h0 at len mem v l b =
    struct-read-write udp_struct _ _ to_struct of_struct IsValid (λ _. Unit) to_struct-Fits h h0 at
      len mem v (of_struct-to_struct h h0 v) l b

-- Below 8 bytes `write` and `read` throw, and change neither the memory nor the object.
pub short_throws :
    (h : UdpHeader) (at len : ℕ) (buf mem : List ℕ)
    → len < 8
    → (write h at len mem ≡ throw "pgen::udp_header::read: buflen is too small" mem)
      × (read buf at len h ≡ throw "pgen::udp_header::read: buflen is too small" h)
unfolding write read
short_throws h at len buf mem l = struct_short udp_struct _ _ to_struct of_struct h at len buf mem l

-- Enough length and enough memory: `read` returns.
pub read_total :
    (h : UdpHeader) (buf : List ℕ) (at len : ℕ)
    → 8 ≤ len
    → at + 8 ≤ length buf
    → (h' : UdpHeader) × (read buf at len h ≡ ok tt h')
unfolding read
read_total h buf at len l b = (
  of_struct (udp_struct.view (drop at buf)) h,
  checked_cast udp_struct 8 _ of_struct at len buf h l b,
)
