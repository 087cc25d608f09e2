-- ===== src/Header/Laws.antt =====
-- The contract of `header` for a call through the base class.
use libpgen.Base.{ℕ, ◌+◌, ◌≤◌, ◌≡◌, refl, subst, List, arith, length, take, drop}
use libpgen.Base.Bytes.{IsBytes}
use libpgen.Base.Run.{Run, ok, throw, fault}
use libpgen.Base.Splice.{splice}
use libpgen.Header.{Header, ethernet, arp, ipv4, ipv6, udp, length_of, write, read, upcast}
use libpgen.Header.Arp
use libpgen.Header.Arp.Laws as ArpLaws
use libpgen.Header.Ethernet
use libpgen.Header.Ethernet.Laws as EthernetLaws
use libpgen.Header.Ipv4
use libpgen.Header.Ipv4.Read as Ipv4Read
use libpgen.Header.Ipv4.Valid as Ipv4Valid
use libpgen.Header.Ipv6
use libpgen.Header.Ipv6.Laws as Ipv6Laws
use libpgen.Header.Udp
use libpgen.Header.Udp.Laws as UdpLaws
use libpgen.Layout.{Memory}

abbrev pub IsValid : Header → Type 0
IsValid (ethernet h) = EthernetLaws.IsValid h
IsValid (arp h) = ArpLaws.IsValid h
IsValid (ipv4 h) = Ipv4Valid.IsValid h
IsValid (ipv6 h) = Ipv6Laws.IsValid h
IsValid (udp h) = UdpLaws.IsValid h

abbrev pub image : Header → List ℕ
image (ethernet h) = EthernetLaws.image h
image (arp h) = ArpLaws.image h
image (ipv4 h) = Ipv4Valid.image h
image (ipv6 h) = Ipv6Laws.image h
image (udp h) = UdpLaws.image h

-- What a header read from `bs` keeps of them: all, but an IPv6 header drops flow and class.
abbrev pub IsKept : Header → List ℕ → Type 0
IsKept (ipv6 h) bs = Ipv6Laws.IsPlain bs
IsKept (ethernet h) bs = Unit
IsKept (arp h) bs = Unit
IsKept (ipv4 h) bs = Unit
IsKept (udp h) bs = Unit

-- The most bytes that a header of its protocol can have.
abbrev pub max_of : Header → ℕ
max_of (ethernet h) = 14
max_of (arp h) = 28
max_of (ipv4 h) = 60
max_of (ipv6 h) = 40
max_of (udp h) = 8

pub length_of-le-max_of : (h : Header) → IsValid h → length_of h ≤ max_of h
unfolding length_of Ethernet.length_of Arp.length_of Ipv4.length_of Ipv6.length_of Udp.length_of
length_of-le-max_of (ethernet h) v = omega arith
length_of-le-max_of (arp h) v = omega arith
length_of-le-max_of (ipv4 h) v = omega (arith, v.hlen_high)
length_of-le-max_of (ipv6 h) v = omega arith
length_of-le-max_of (udp h) v = omega arith

pub length-image : (h : Header) → IsValid h → length (image h) ≡ length_of h
unfolding length_of Ethernet.ops Arp.ops Ipv4.ops Ipv6.ops Udp.ops
length-image (ethernet h) = EthernetLaws.contract.length-image h
length-image (arp h) = ArpLaws.contract.length-image h
length-image (ipv4 h) = Ipv4Read.contract.length-image h
length-image (ipv6 h) = Ipv6Laws.contract.length-image h
length-image (udp h) = UdpLaws.contract.length-image h

pub image-IsBytes : (h : Header) → IsValid h → IsBytes (image h)
unfolding Ethernet.ops Arp.ops Ipv4.ops Ipv6.ops Udp.ops
image-IsBytes (ethernet h) = EthernetLaws.contract.image-IsBytes h
image-IsBytes (arp h) = ArpLaws.contract.image-IsBytes h
image-IsBytes (ipv4 h) = Ipv4Read.contract.image-IsBytes h
image-IsBytes (ipv6 h) = Ipv6Laws.contract.image-IsBytes h
image-IsBytes (udp h) = UdpLaws.contract.image-IsBytes h

-- `write` through the base class, of a valid header with enough length and enough memory, returns and
-- overwrites exactly the bytes of the header at the pointer.
pub write_image :
    (h : Header) (at len : ℕ) (mem : Memory)
    → IsValid h
    → length_of h ≤ len
    → at + length_of h ≤ length mem
    → write h at len mem ≡ ok tt (splice at (image h) mem)
unfolding length_of write Ethernet.ops Arp.ops Ipv4.ops Ipv6.ops Udp.ops
write_image (ethernet h) = EthernetLaws.contract.write_image h
write_image (arp h) = ArpLaws.contract.write_image h
write_image (ipv4 h) = Ipv4Read.contract.write_image h
write_image (ipv6 h) = Ipv6Laws.contract.write_image h
write_image (udp h) = UdpLaws.contract.write_image h

-- What a read that returns has done.
pub record Reads (buf : List ℕ) (at len : ℕ) (h h' : Header) : Type 0 where
  pub valid : IsValid h'
  pub enough : length_of h' ≤ len
  pub room : at + length_of h' ≤ length buf
  pub bytes : IsKept h' (drop at buf) → image h' ≡ take (length_of h') (drop at buf)
  pub same_max : max_of h' ≡ max_of h

upcast-Reads :
    {H : Type 0} (c : H → Header) (r : Run H (Unit {0})) (buf : List ℕ) (at len : ℕ) (h h' : Header)
    → ((x : H) → r ≡ ok tt x → Reads buf at len h (c x))
    → upcast c r ≡ ok tt h'
    → Reads buf at len h h'
upcast-Reads c (ok a x) buf at len h h' f e =
    let same : c x ≡ h' = cc in subst (Reads buf at len h) same (f x refl)
upcast-Reads c (throw m x) buf at len h h' f e = cc
upcast-Reads c fault buf at len h h' f e = cc

-- What a `read` through the base class that returns has done, from bytes and over a valid header: the
-- new header is valid, its length is within the length given and the buffer, and its bytes are those
-- that were read, of an IPv6 header only if the flow label and the traffic class in them are zero; the
-- protocol is the same as before.
pub read_image :
    (h h' : Header) (buf : List ℕ) (at len : ℕ)
    → IsBytes buf
    → IsValid h
    → read buf at len h ≡ ok tt h'
    → Reads buf at len h h'
unfolding read length_of Ethernet.ops Arp.ops Ipv4.ops Ipv6.ops Udp.ops
read_image (ethernet h) h' buf at len bs v =
    upcast-Reads ethernet (Ethernet.read buf at len h) buf at len (ethernet h) h' λ x e.
      let (v', l, m, k) = EthernetLaws.contract.read_image h x buf at len bs v e in
      record { valid = v'; enough = l; room = m; bytes = λ kept. k tt; same_max = refl }
read_image (arp h) h' buf at len bs v =
    upcast-Reads arp (Arp.read buf at len h) buf at len (arp h) h' λ x e.
      let (v', l, m, k) = ArpLaws.contract.read_image h x buf at len bs v e in
      record { valid = v'; enough = l; room = m; bytes = λ kept. k tt; same_max = refl }
read_image (ipv4 h) h' buf at len bs v =
    upcast-Reads ipv4 (Ipv4.read buf at len h) buf at len (ipv4 h) h' λ x e.
      let (v', l, m, k) = Ipv4Read.contract.read_image h x buf at len bs v e in
      record { valid = v'; enough = l; room = m; bytes = λ kept. k tt; same_max = refl }
read_image (ipv6 h) h' buf at len bs v =
    upcast-Reads ipv6 (Ipv6.read buf at len h) buf at len (ipv6 h) h' λ x e.
      let (v', l, m, k) = Ipv6Laws.contract.read_image h x buf at len bs v e in
      record { valid = v'; enough = l; room = m; bytes = λ kept. k kept; same_max = refl }
read_image (udp h) h' buf at len bs v =
    upcast-Reads udp (Udp.read buf at len h) buf at len (udp h) h' λ x e.
      let (v', l, m, k) = UdpLaws.contract.read_image h x buf at len bs v e in
      record { valid = v'; enough = l; room = m; bytes = λ kept. k tt; same_max = refl }
