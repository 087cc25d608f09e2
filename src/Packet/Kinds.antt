-- ===== src/Packet/Kinds.antt =====
-- `analyze` leaves each header of the class that it was, so the next packet is read by the same ones.
use libpgen.Base.{ℕ, ◌+◌, ◌-◌, ◌*◌, ◌≡◌, refl, sym, ap, ap₂, subst, ◌∙◌, List, [], ◌∷◌, drop}
use libpgen.Base.Bytes.{sub_size}
use libpgen.Base.Run.{Run, ok, throw, fault}
use libpgen.Header
use libpgen.Header.{Header, ethernet, arp, ipv4, ipv6, udp, upcast}
use libpgen.Header.Arp.{ArpHeader}
use libpgen.Header.Ethernet.{EthernetHeader}
use libpgen.Header.Ipv4.{Ipv4Header, ip}
use libpgen.Header.Ipv6.{Ipv6Header}
use libpgen.Header.Udp.{UdpHeader}
use libpgen.Header.Readable.{IsReadable, length_in}
use libpgen.Packet.{read_headers}
use libpgen.Packet.Reading.{AllReadable, next_header-eq-ok}

pub data Kind : Type 0 where
  is_ethernet is_arp is_ipv4 is_ipv6 is_udp : Kind

abbrev pub kind : Header → Kind
kind (ethernet h) = is_ethernet
kind (arp h) = is_arp
kind (ipv4 h) = is_ipv4
kind (ipv6 h) = is_ipv6
kind (udp h) = is_udp

abbrev pub kinds : List Header → List Kind
kinds [] = []
kinds (h ∷ hs) = kind h ∷ kinds hs

-- What `IsReadable` asks, for every header of the kind.
abbrev Reads : Kind → ℕ → List ℕ → Type 0
Reads is_ethernet len bs = (h : EthernetHeader) → IsReadable (ethernet h) len bs
Reads is_arp len bs = (h : ArpHeader) → IsReadable (arp h) len bs
Reads is_ipv4 len bs = (h : Ipv4Header) → IsReadable (ipv4 h) len bs
Reads is_ipv6 len bs = (h : Ipv6Header) → IsReadable (ipv6 h) len bs
Reads is_udp len bs = (h : UdpHeader) → IsReadable (udp h) len bs

IsReadable-Reads :
    (h : Header) (len : ℕ) (bs : List ℕ) → IsReadable h len bs → Reads (kind h) len bs
IsReadable-Reads (ethernet h) len bs r =
    λ k. record { enough = r.enough; room = r.room; long = r.long; kept = r.kept }
IsReadable-Reads (arp h) len bs r =
    λ k. record { enough = r.enough; room = r.room; long = r.long; kept = r.kept }
IsReadable-Reads (ipv4 h) len bs r =
    λ k. record { enough = r.enough; room = r.room; long = r.long; kept = r.kept }
IsReadable-Reads (ipv6 h) len bs r =
    λ k. record { enough = r.enough; room = r.room; long = r.long; kept = r.kept }
IsReadable-Reads (udp h) len bs r =
    λ k. record { enough = r.enough; room = r.room; long = r.long; kept = r.kept }

Reads-IsReadable :
    (h : Header) (len : ℕ) (bs : List ℕ) → Reads (kind h) len bs → IsReadable h len bs
Reads-IsReadable (ethernet h) len bs r = r h
Reads-IsReadable (arp h) len bs r = r h
Reads-IsReadable (ipv4 h) len bs r = r h
Reads-IsReadable (ipv6 h) len bs r = r h
Reads-IsReadable (udp h) len bs r = r h

abbrev length_by : Kind → List ℕ → ℕ
length_by is_ethernet bs = 14
length_by is_arp bs = 28
length_by is_ipv4 bs = (ip.view bs).hlen * 4
length_by is_ipv6 bs = 40
length_by is_udp bs = 8

length_by_lem : (h : Header) (bs : List ℕ) → length_by (kind h) bs ≡ length_in h bs
length_by_lem (ethernet h) bs = refl
length_by_lem (arp h) bs = refl
length_by_lem (ipv4 h) bs = refl
length_by_lem (ipv6 h) bs = refl
length_by_lem (udp h) bs = refl

-- Headers of the same kinds read the same bytes.
pub AllReadable-kinds :
    (hs ks : List Header) (len : ℕ) (bs : List ℕ)
    → kinds hs ≡ kinds ks
    → AllReadable hs len bs
    → AllReadable ks len bs
AllReadable-kinds [] [] len bs e r = tt
AllReadable-kinds [] (k ∷ ks) len bs e r = cc
AllReadable-kinds (h ∷ hs) [] len bs e r = cc
AllReadable-kinds (h ∷ hs) (k ∷ ks) len bs e (first, others) =
    let same : kind h ≡ kind k = cc in
    let more : kinds hs ≡ kinds ks = cc in
    let long : length_in h bs ≡ length_in k bs =
      sym (length_by_lem h bs) ∙ ap (λ j. length_by j bs) same ∙ length_by_lem k bs in
    (
      Reads-IsReadable k len bs
          (subst (λ j. Reads j len bs) same (IsReadable-Reads h len bs first)),
      AllReadable-kinds hs ks (len - length_in k bs) (drop (length_in k bs) bs) more
          (subst (λ n. AllReadable hs (len - n) (drop n bs)) long others),
    )

kind-upcast :
    {H : Type 0} (c : H → Header) (j : Kind) (r : Run H (Unit {0})) {h' : Header}
    → ((h : H) → kind (c h) ≡ j)
    → upcast c r ≡ ok tt h'
    → kind h' ≡ j
kind-upcast c j (ok a h) {h' = h'} f e = let same : c h ≡ h' = cc in ap kind (sym same) ∙ f h
kind-upcast c j (throw m h) f e = cc
kind-upcast c j fault f e = cc

kind-read :
    (h : Header) (buf : List ℕ) (at len : ℕ) {h' : Header}
    → Header.read buf at len h ≡ ok tt h'
    → kind h' ≡ kind h
unfolding Header.read
kind-read (ethernet h) buf at len e = kind-upcast ethernet is_ethernet _ (λ k. refl) e
kind-read (arp h) buf at len e = kind-upcast arp is_arp _ (λ k. refl) e
kind-read (ipv4 h) buf at len e = kind-upcast ipv4 is_ipv4 _ (λ k. refl) e
kind-read (ipv6 h) buf at len e = kind-upcast ipv6 is_ipv6 _ (λ k. refl) e
kind-read (udp h) buf at len e = kind-upcast udp is_udp _ (λ k. refl) e

pub kinds-read_headers :
    (hs : List Header) (buf : List ℕ) (at len : ℕ) {p : ℕ × ℕ} {hs' : List Header}
    → read_headers buf at len hs ≡ ok p hs'
    → kinds hs' ≡ kinds hs
unfolding read_headers
kinds-read_headers [] buf at len {hs' = hs'} e = let same : [] ≡ hs' = cc in ap kinds (sym same)
kinds-read_headers (h ∷ hs) buf at len e =
    let (k, ks, e', r, same) = next_header-eq-ok (Header.read buf at len h) _ hs e in
    ap kinds (sym same)
    ∙ ap₂ (λ j js. j ∷ js) (kind-read h buf at len e')
        (kinds-read_headers hs buf (at + Header.length_of k) (sub_size len (Header.length_of k)) r)
