-- ===== src/Header/Arp/Laws.antt =====
-- The bytes of an ARP header, and the contract that it keeps.
use libpgen.Base.{drop, ℕ, ◌+◌, ◌≤◌, ◌<◌, ◌≡◌, List, arith, length, take-length}
use libpgen.Base.Bytes.{htons, ntohs, htons-lt, ntohs-lt, ntohs-htons, htons-ntohs}
use libpgen.Base.Run.{ok, throw, Exec, member, >>=-ok}
use libpgen.Base.Text.{codes}
use libpgen.Header.Arp.{
  ArpStruct, arp_struct, ArpHeader, write, read, length_of, ops, clear, request, on_hwdst,
}
use libpgen.Header.Contract.{Contract}
use libpgen.Header.Struct.{struct-contract, struct-read-write, struct_short}
use libpgen.Ipv4Address
use libpgen.Ipv4Address.Laws as Ipv4Laws
use libpgen.Layout.{Memory, checked_cast}
use libpgen.MacAddress
use libpgen.MacAddress.{MacAddress}
use libpgen.MacAddress.Laws as MacLaws

pub record IsValid (h : ArpHeader) : Type 0 where
  pub hwtype : h.hwtype < 65536
  pub ptype : h.ptype < 65536
  pub hwlen : h.hwlen < 256
  pub plen : h.plen < 256
  pub operation : h.operation < 65536
  pub hwsrc : MacLaws.IsValid h.hwsrc
  pub psrc : Ipv4Laws.IsValid h.psrc
  pub hwdst : MacLaws.IsValid h.hwdst
  pub pdst : Ipv4Laws.IsValid h.pdst

-- The struct that `write` fills.
abbrev pub to_struct : ArpHeader → ArpStruct
to_struct h = record {
  hwtype = htons h.hwtype;
  ptype = htons h.ptype;
  hwlen = h.hwlen;
  plen = h.plen;
  operation = htons h.operation;
  hwsrc = MacAddress.copytoarray h.hwsrc;
  psrc = Ipv4Address.copytoarray h.psrc;
  hwdst = MacAddress.copytoarray h.hwdst;
  pdst = Ipv4Address.copytoarray h.pdst;
}

-- What `read` makes of the struct at the pointer.
abbrev of_struct : ArpStruct → ArpHeader → ArpHeader
of_struct p h = record h {
  hwtype = ntohs p.hwtype;
  ptype = ntohs p.ptype;
  hwlen = p.hwlen;
  plen = p.plen;
  operation = ntohs p.operation;
  hwsrc = MacAddress.setbyarray p.hwsrc h.hwsrc;
  psrc = Ipv4Address.setbyarray p.psrc h.psrc;
  hwdst = MacAddress.setbyarray p.hwdst h.hwdst;
  pdst = Ipv4Address.setbyarray p.pdst h.pdst;
}

unfoldable pub image : ArpHeader → List ℕ
image h = arp_struct.put (to_struct h)

to_struct-Fits : (h : ArpHeader) → IsValid h → arp_struct.Fits (to_struct h)
unfolding MacAddress.copytoarray Ipv4Address.copytoarray
to_struct-Fits h v = (
  htons-lt h.hwtype,
  (
    htons-lt h.ptype,
    (
      v.hwlen,
      (
        v.plen,
        (
          htons-lt h.operation,
          (
            (v.hwsrc.octets, v.hwsrc.bytes),
            (
              (v.psrc.octets, v.psrc.bytes),
              ((v.hwdst.octets, v.hwdst.bytes), (v.pdst.octets, v.pdst.bytes)),
            ),
          ),
        ),
      ),
    ),
  ),
)

of_struct-IsValid :
    (p : ArpStruct) (h : ArpHeader) → IsValid h → arp_struct.Fits p → IsValid (of_struct p h)
of_struct-IsValid p h v
      (_, (_, (hl, (pl, (_, ((hs, hsb), ((ps, psb), ((hd, hdb), (pd, pdb))))))))) =
    record {
      hwtype = ntohs-lt p.hwtype;
      ptype = ntohs-lt p.ptype;
      hwlen = hl;
      plen = pl;
      operation = ntohs-lt p.operation;
      hwsrc = MacLaws.setbyarray-IsValid p.hwsrc h.hwsrc hsb (omega arith);
      psrc = Ipv4Laws.setbyarray-IsValid p.psrc h.psrc psb (omega arith);
      hwdst = MacLaws.setbyarray-IsValid p.hwdst h.hwdst hdb (omega arith);
      pdst = Ipv4Laws.setbyarray-IsValid p.pdst h.pdst pdb (omega arith);
    }

to_struct-of_struct :
    (p : ArpStruct) (h : ArpHeader) → arp_struct.Fits p → to_struct (of_struct p h) ≡ p
unfolding MacAddress.copytoarray MacAddress.setbyarray Ipv4Address.copytoarray
    Ipv4Address.setbyarray
to_struct-of_struct p h (ht, (pt, (_, (_, (o, ((hs, _), ((ps, _), ((hd, _), (pd, _))))))))) = λ i.
    record {
      hwtype = htons-ntohs p.hwtype ht i;
      ptype = htons-ntohs p.ptype pt i;
      hwlen = p.hwlen;
      plen = p.plen;
      operation = htons-ntohs p.operation o i;
      hwsrc = take-length p.hwsrc 6 (omega arith) i;
      psrc = take-length p.psrc 4 (omega arith) i;
      hwdst = take-length p.hwdst 6 (omega arith) i;
      pdst = take-length p.pdst 4 (omega arith) i;
    }

of_struct-to_struct : (h h0 : ArpHeader) → IsValid h → of_struct (to_struct h) h0 ≡ h
of_struct-to_struct h h0 v = λ i. record {
  hwtype = ntohs-htons h.hwtype v.hwtype i;
  ptype = ntohs-htons h.ptype v.ptype i;
  hwlen = h.hwlen;
  plen = h.plen;
  operation = ntohs-htons h.operation v.operation i;
  hwsrc = MacLaws.setbyarray-copytoarray h0.hwsrc v.hwsrc i;
  psrc = Ipv4Laws.setbyarray-copytoarray h0.psrc v.psrc i;
  hwdst = MacLaws.setbyarray-copytoarray h0.hwdst v.hwdst i;
  pdst = Ipv4Laws.setbyarray-copytoarray h0.pdst v.pdst i;
}

-- The contract of `header`; every bit of the 28 bytes has a member.
pub contract : Contract ops IsValid image (λ _. Unit)
unfolding ops write read length_of image
contract =
    struct-contract arp_struct _ _ to_struct of_struct IsValid (λ _. Unit) to_struct-Fits
      of_struct-IsValid (λ bs h k f. to_struct-of_struct (arp_struct.view bs) h f)

-- A valid header written into memory, at whatever offset, is read back by `read` into whatever
-- object, if the length given is 28 or more and the memory has 28 bytes there.
pub read-write_arp :
    (h h0 : ArpHeader) (at len : ℕ) (mem : Memory)
    → IsValid h
    → 28 ≤ len
    → at + 28 ≤ length mem
    → (mem' : Memory) × (write h at len mem ≡ ok tt mem') × (read mem' at len h0 ≡ ok tt h)
unfolding write read
read-write_arp h h0 at len mem v l b =
    struct-read-write arp_struct _ _ to_struct of_struct IsValid (λ _. Unit) to_struct-Fits h h0 at
      len mem v (of_struct-to_struct h h0 v) l b

-- Below 28 bytes `write` and `read` throw, and change neither the memory nor the object.
pub short_throws :
    (h : ArpHeader) (at len : ℕ) (buf mem : List ℕ)
    → len < 28
    → (write h at len mem ≡ throw "pgen::arp_header::write: bufferlen is too small" mem)
      × (read buf at len h ≡ throw "pgen::arp_header::read: bufferlen is too small" h)
unfolding write read
short_throws h at len buf mem l = struct_short arp_struct _ _ to_struct of_struct h at len buf mem l

module _ {A : Type 0} (m : Exec MacAddress A) (h : ArpHeader) {a : A} {t : MacAddress} where
  on_hwdst-ok : m h.hwdst ≡ ok a t → on_hwdst m h ≡ ok a (record h { hwdst = t })
  on_hwdst-ok e = rw (e, member)

-- A request to the broadcast address.
abbrev pub cleared : ArpHeader → ArpHeader
cleared h = record {
  hwtype = 0x0001;
  ptype = 0x0800;
  hwlen = 6;
  plen = 4;
  operation = request;
  hwsrc = MacAddress.clear h.hwsrc;
  psrc = Ipv4Address.clear h.psrc;
  hwdst = MacAddress.setbyarray MacLaws.broadcast h.hwdst;
  pdst = Ipv4Address.clear h.pdst;
}

-- `clear` does not throw: its literal is an address.
pub clear_lem : (h : ArpHeader) → clear h ≡ ok tt (cleared h)
unfolding clear
clear_lem h = >>=-ok (on_hwdst (MacAddress.set_str (codes "ff:ff:ff:ff:ff:ff"))) _ _ (
    on_hwdst-ok (MacAddress.set_str (codes "ff:ff:ff:ff:ff:ff"))
      (record h {
        hwtype = 0x0001;
        ptype = 0x0800;
        hwlen = 6;
        plen = 4;
        operation = request;
        hwsrc = MacAddress.clear h.hwsrc;
        psrc = Ipv4Address.clear h.psrc;
      })
      (MacLaws.set_str-broadcast h.hwdst))

pub cleared-IsValid : (h : ArpHeader) → IsValid (cleared h)
cleared-IsValid h = record {
  hwtype = omega arith;
  ptype = omega arith;
  hwlen = omega arith;
  plen = omega arith;
  operation = omega arith;
  hwsrc = MacLaws.clear-IsValid h.hwsrc;
  psrc = Ipv4Laws.clear-IsValid h.psrc;
  hwdst = MacLaws.setbyarray-IsValid MacLaws.broadcast h.hwdst (omega arith) (omega arith);
  pdst = Ipv4Laws.clear-IsValid h.pdst;
}

-- Enough length and enough memory: `read` returns.
pub read_total :
    (h : ArpHeader) (buf : List ℕ) (at len : ℕ)
    → 28 ≤ len
    → at + 28 ≤ length buf
    → (h' : ArpHeader) × (read buf at len h ≡ ok tt h')
unfolding read
read_total h buf at len l b = (
  of_struct (arp_struct.view (drop at buf)) h,
  checked_cast arp_struct 28 _ of_struct at len buf h l b,
)
