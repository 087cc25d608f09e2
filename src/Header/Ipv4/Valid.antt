-- ===== src/Header/Ipv4/Valid.antt =====
-- The invariant of an IPv4 header, and its bytes.
use libpgen.Base.{
  ℕ, ◌-◌, ◌*◌, ◌≤◌, ◌<◌, ◌≡◌, List, ◌++◌, arith, length, take, length-take_le, All-append, All-take,
  length-append,
}
use libpgen.Base.Bytes.{IsByte, IsBytes, sub_size, htons-lt}
use libpgen.Header.Ipv4.{ip, Ipv4Header, length_of, to_struct, option_length}
use libpgen.Ipv4Address
use libpgen.Ipv4Address.Laws

pub record IsValid (h : Ipv4Header) : Type 0 where
  pub version : h.version < 16
  pub hlen_low : 5 ≤ h.hlen
  pub hlen_high : h.hlen < 16
  pub tos : h.tos < 256
  pub tot_len : h.tot_len < 65536
  pub id : h.id < 65536
  pub frag_off : h.frag_off < 65536
  pub ttl : h.ttl < 256
  pub protocol : h.protocol < 256
  pub check : h.check < 65536
  pub src : Laws.IsValid h.src
  pub dst : Laws.IsValid h.dst
  pub option_room : length h.option ≡ 40
  pub option_bytes : IsBytes h.option

-- The struct, then the options in use.
unfoldable pub image : Ipv4Header → List ℕ
image h = ip.put (to_struct h) ++ take (h.hlen * 4 - 20) h.option

pub to_struct-Fits : (h : Ipv4Header) → IsValid h → ip.Fits (to_struct h)
unfolding Ipv4Address.copytoarray
to_struct-Fits h v = (
  (v.hlen_high, v.version),
  (
    v.tos,
    (
      htons-lt h.tot_len,
      (
        htons-lt h.id,
        (
          htons-lt h.frag_off,
          (
            v.ttl,
            (
              v.protocol,
              (htons-lt h.check, ((v.src.octets, v.src.bytes), (v.dst.octets, v.dst.bytes))),
            ),
          ),
        ),
      ),
    ),
  ),
)

-- No wrap: a valid header is 20 to 60 bytes long.
pub option_length_lem :
    (h : Ipv4Header)
    → 5 ≤ h.hlen
    → h.hlen < 16
    → (option_length h ≡ h.hlen * 4 - 20) × (h.hlen * 4 - 20 ≤ 40)
unfolding length_of sub_size
option_length_lem h l k = omega arith

-- A length of the options that fits the array means that nothing wrapped.
pub hlen_of_option_length : (h : Ipv4Header) → h.hlen < 16 → option_length h ≤ 40 → 5 ≤ h.hlen
unfolding length_of sub_size
hlen_of_option_length h l k = omega arith

pub length-image : (h : Ipv4Header) → IsValid h → length (image h) ≡ length_of h
unfolding image length_of
length-image h v = omega (
  arith,
  length-append (ip.put (to_struct h)) (take (h.hlen * 4 - 20) h.option),
  ip.length-put (to_struct h) (to_struct-Fits h v),
  length-take_le (h.hlen * 4 - 20) h.option (omega (arith, v.option_room)),
)

pub image-IsBytes : (h : Ipv4Header) → IsValid h → IsBytes (image h)
unfolding image
image-IsBytes h v =
    All-append IsByte (ip.put (to_struct h)) (take (h.hlen * 4 - 20) h.option)
      (ip.put-IsBytes (to_struct h) (to_struct-Fits h v))
      (All-take IsByte (h.hlen * 4 - 20) h.option v.option_bytes)
