-- ===== src/Header/Ethernet/Laws.antt =====
-- The bytes of an Ethernet header, and the contract that it keeps.
use libpgen.Base.{drop, ℕ, ◌+◌, ◌≤◌, ◌<◌, ◌≡◌, ◌∙◌, List, arith, length, take-length}
use libpgen.Base.Bytes.{htons, ntohs, htons-lt, ntohs-lt, ntohs-htons, htons-ntohs}
use libpgen.Base.Run.{ok, throw, Exec, member, >>=-ok}
use libpgen.Base.Text.{codes}
use libpgen.Header.Contract.{Contract}
use libpgen.Header.Ethernet.{
  Eth, eth, EthernetHeader, write, read, length_of, ops, clear, on_src, on_dst,
}
use libpgen.Header.Struct.{struct-contract, struct-read-write, struct_short}
use libpgen.Layout.{Memory, checked_cast}
use libpgen.MacAddress
use libpgen.MacAddress.{MacAddress}
use libpgen.MacAddress.Laws

pub record IsValid (h : EthernetHeader) : Type 0 where
  pub dst : Laws.IsValid h.dst
  pub src : Laws.IsValid h.src
  pub type : h.type < 65536

-- The struct that `write` fills.
abbrev pub to_struct : EthernetHeader → Eth
to_struct h = record {
  dst = MacAddress.copytoarray h.dst;
  src = MacAddress.copytoarray h.src;
  type = htons h.type;
}

-- What `read` makes of the struct at the pointer.
abbrev of_struct : Eth → EthernetHeader → EthernetHeader
of_struct p h = record h {
  src = MacAddress.setbyarray p.src h.src;
  dst = MacAddress.setbyarray p.dst h.dst;
  type = ntohs p.type;
}

unfoldable pub image : EthernetHeader → List ℕ
image h = eth.put (to_struct h)

to_struct-Fits : (h : EthernetHeader) → IsValid h → eth.Fits (to_struct h)
unfolding MacAddress.copytoarray
to_struct-Fits h v = ((v.dst.octets, v.dst.bytes), ((v.src.octets, v.src.bytes), htons-lt h.type))

of_struct-IsValid :
    (p : Eth) (h : EthernetHeader) → IsValid h → eth.Fits p → IsValid (of_struct p h)
of_struct-IsValid p h v ((d, ds), ((s, ss), t)) = record {
  dst = Laws.setbyarray-IsValid p.dst h.dst ds (omega arith);
  src = Laws.setbyarray-IsValid p.src h.src ss (omega arith);
  type = ntohs-lt p.type;
}

to_struct-of_struct : (p : Eth) (h : EthernetHeader) → eth.Fits p → to_struct (of_struct p h) ≡ p
unfolding MacAddress.copytoarray MacAddress.setbyarray
to_struct-of_struct p h ((d, ds), ((s, ss), t)) = λ i. record {
  dst = take-length p.dst 6 (omega arith) i;
  src = take-length p.src 6 (omega arith) i;
  type = htons-ntohs p.type t i;
}

of_struct-to_struct : (h h0 : EthernetHeader) → IsValid h → of_struct (to_struct h) h0 ≡ h
of_struct-to_struct h h0 v = λ i. record {
  dst = Laws.setbyarray-copytoarray h0.dst v.dst i;
  src = Laws.setbyarray-copytoarray h0.src v.src i;
  type = ntohs-htons h.type v.type i;
}

-- The contract of `header`; every bit of the fourteen bytes has a member.
pub contract : Contract ops IsValid image (λ _. Unit)
unfolding ops write read length_of image
contract =
    struct-contract eth _ _ to_struct of_struct IsValid (λ _. Unit) to_struct-Fits of_struct-IsValid
      (λ bs h k f. to_struct-of_struct (eth.view bs) h f)

-- A valid header written into memory, at whatever offset, is read back by `read` into whatever
-- object, if the length given is 14 or more and the memory has 14 bytes there.
pub read-write_ethernet :
    (h h0 : EthernetHeader) (at len : ℕ) (mem : Memory)
    → IsValid h
    → 14 ≤ len
    → at + 14 ≤ length mem
    → (mem' : Memory) × (write h at len mem ≡ ok tt mem') × (read mem' at len h0 ≡ ok tt h)
unfolding write read
read-write_ethernet h h0 at len mem v l b =
    struct-read-write eth _ _ to_struct of_struct IsValid (λ _. Unit) to_struct-Fits h h0 at len mem
      v (of_struct-to_struct h h0 v) l b

-- Below 14 bytes `write` and `read` throw, and change neither the memory nor the object.
pub short_throws :
    (h : EthernetHeader) (at len : ℕ) (buf mem : List ℕ)
    → len < 14
    → (write h at len mem ≡ throw "pgen::ethernet_header::write: buflen is too small" mem)
      × (read buf at len h ≡ throw "pgen::ethernet_header::read: Buffer length is too small" h)
unfolding write read
short_throws h at len buf mem l = struct_short eth _ _ to_struct of_struct h at len buf mem l

abbrev zeros : Exec MacAddress (Unit {0})
zeros = MacAddress.set_str (codes "00:00:00:00:00:00")

module _ {A : Type 0} (m : Exec MacAddress A) (h : EthernetHeader) {a : A} {t : MacAddress} where
  on_src-ok : m h.src ≡ ok a t → on_src m h ≡ ok a (record h { src = t })
  on_src-ok e = rw (e, member)

  on_dst-ok : m h.dst ≡ ok a t → on_dst m h ≡ ok a (record h { dst = t })
  on_dst-ok e = rw (e, member)

abbrev pub cleared : EthernetHeader → EthernetHeader
cleared h = record { dst = MacAddress.clear h.dst; src = MacAddress.clear h.src; type = 0 }

-- `clear` does not throw: its literals are addresses.
pub clear_lem : (h : EthernetHeader) → clear h ≡ ok tt (cleared h)
unfolding clear
clear_lem h =
    >>=-ok (on_src zeros) _ h (on_src-ok zeros h (Laws.set_str_zeros h.src))
    ∙ >>=-ok (on_dst zeros) _ _
        (on_dst-ok zeros (record h { src = MacAddress.clear h.src }) (Laws.set_str_zeros h.dst))

pub cleared-IsValid : (h : EthernetHeader) → IsValid (cleared h)
cleared-IsValid h = record {
  dst = Laws.clear-IsValid h.dst;
  src = Laws.clear-IsValid h.src;
  type = omega arith;
}

-- An address pair is valid with any type of two bytes.
pub with_type-IsValid :
    (h : EthernetHeader) (type : ℕ) → IsValid h → type < 65536 → IsValid (record h { type = type })
with_type-IsValid h type v s = record { dst = v.dst; src = v.src; type = s }

-- Enough length and enough memory: `read` returns.
pub read_total :
    (h : EthernetHeader) (buf : List ℕ) (at len : ℕ)
    → 14 ≤ len
    → at + 14 ≤ length buf
    → (h' : EthernetHeader) × (read buf at len h ≡ ok tt h')
unfolding read
read_total h buf at len l b =
    (of_struct (eth.view (drop at buf)) h, checked_cast eth 14 _ of_struct at len buf h l b)
