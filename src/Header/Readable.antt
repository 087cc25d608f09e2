-- ===== src/Header/Readable.antt =====
-- What the bytes at a pointer need for `read` to return, protocol by protocol.
use libpgen.Base.{
  ℕ, ◌*◌, ◌≤◌, ◌≡◌, refl, ap, ◌∙◌, List, arith, length, take, drop, length-drop, All-drop,
}
use libpgen.Base.Bytes.{IsByte, IsBytes}
use libpgen.Base.Run.{ok}
use libpgen.Header.{Header, ethernet, arp, ipv4, ipv6, udp, length_of, read, upcast}
use libpgen.Header.Arp
use libpgen.Header.Arp.Laws as ArpLaws
use libpgen.Header.Ethernet
use libpgen.Header.Ethernet.Laws as EthernetLaws
use libpgen.Header.Ipv4
use libpgen.Header.Ipv4.{ip}
use libpgen.Header.Ipv4.Laws as Ipv4Laws
use libpgen.Header.Ipv6
use libpgen.Header.Ipv6.Laws as Ipv6Laws
use libpgen.Header.Laws.{IsValid, IsKept, image, read_image}
use libpgen.Header.Udp
use libpgen.Header.Udp.Laws as UdpLaws

-- The length of the header that stands at the front of `bs`.
abbrev pub length_in : Header → List ℕ → ℕ
length_in (ethernet h) bs = 14
length_in (arp h) bs = 28
length_in (ipv4 h) bs = (ip.view bs).hlen * 4
length_in (ipv6 h) bs = 40
length_in (udp h) bs = 8

-- An IPv4 header must say that it has 20 bytes or more.
abbrev pub IsLongEnough : Header → List ℕ → Type 0
IsLongEnough (ipv4 h) bs = 5 ≤ (ip.view bs).hlen
IsLongEnough (ethernet h) bs = Unit
IsLongEnough (arp h) bs = Unit
IsLongEnough (ipv6 h) bs = Unit
IsLongEnough (udp h) bs = Unit

-- Bytes that `read` accepts and that the header keeps: an IPv6 header with no flow label and no
-- traffic class.
pub record IsReadable (h : Header) (len : ℕ) (bs : List ℕ) : Type 0 where
  pub enough : length_in h bs ≤ len
  pub room : length_in h bs ≤ length bs
  pub long : IsLongEnough h bs
  pub kept : IsKept h bs

-- `read` returns, and what stood in the bytes for `IsReadable` holds of the new header's class.
pub read_returns :
    (h : Header) (buf : List ℕ) (at len : ℕ)
    → IsBytes buf
    → at ≤ length buf
    → IsValid h
    → IsReadable h len (drop at buf)
    → (h' : Header) × (read buf at len h ≡ ok tt h')
      × (length_of h' ≡ length_in h (drop at buf))
      × IsKept h' (drop at buf)
unfolding read length_of Ethernet.length_of Arp.length_of Ipv4.length_of Ipv6.length_of
    Udp.length_of
read_returns (ethernet h) buf at len bs b v r =
    let (h', e) =
      EthernetLaws.read_total h buf at len r.enough (omega (arith, length-drop at buf, r.room)) in
    (ethernet h', ap (upcast ethernet) e, refl, tt)
read_returns (arp h) buf at len bs b v r =
    let (h', e) =
      ArpLaws.read_total h buf at len r.enough (omega (arith, length-drop at buf, r.room)) in
    (arp h', ap (upcast arp) e, refl, tt)
read_returns (udp h) buf at len bs b v r =
    let (h', e) =
      UdpLaws.read_total h buf at len r.enough (omega (arith, length-drop at buf, r.room)) in
    (udp h', ap (upcast udp) e, refl, tt)
read_returns (ipv6 h) buf at len bs b v r =
    let (h', e) =
      Ipv6Laws.read_total h buf at len r.enough (omega (arith, length-drop at buf, r.room)) in
    (ipv6 h', ap (upcast ipv6) e, refl, r.kept)
read_returns (ipv4 h) buf at len bs b v r =
    let front = drop at buf in
    let fits = ip.view-Fits front (All-drop IsByte at buf bs) (omega (arith, r.long, r.room)) in
    (
      _,
      ap (upcast ipv4) (
          Ipv4Laws.read_lem h (ip.view front) buf at len refl r.long fits.0.0 v.option_room r.enough
            (omega (arith, length-drop at buf, r.room))),
      refl,
      tt,
    )

-- On bytes that are readable for a valid header's protocol `read` returns: the new header is valid and
-- as long as the bytes say, and its own bytes are exactly those that it was read from. An IPv6 header's
-- flow label and traffic class must be zero, and an IPv4 header must say that it has 20 bytes or more.
pub read_total :
    (h : Header) (buf : List ℕ) (at len : ℕ)
    → IsBytes buf
    → at ≤ length buf
    → IsValid h
    → IsReadable h len (drop at buf)
    → (h' : Header) × (read buf at len h ≡ ok tt h')
      × IsValid h'
      × (length_of h' ≡ length_in h (drop at buf))
      × (image h' ≡ take (length_in h (drop at buf)) (drop at buf))
read_total h buf at len bs b v r =
    let (h', e, long, kept) = read_returns h buf at len bs b v r in
    let reads = read_image h h' buf at len bs v e in
    (h', e, reads.valid, long, reads.bytes kept ∙ ap (λ (k : ℕ). take k (drop at buf)) long)
