-- ===== src/Header/Arp.antt =====
-- pgen/core/protocol/arp.h: the class `arp_header`.
pub mod Laws
use libpgen.Base.{ℕ, List, refl, ltb}
use libpgen.Base.Bytes.{htons, ntohs}
use libpgen.Base.Run.{Run, ok, throw, fault, Exec, modify, throw_if, member, ◌>>=◌, ◌>>◌}
use libpgen.Base.Text.{codes}
use libpgen.Header.Contract.{HeaderOps}
use libpgen.Ipv4Address
use libpgen.Ipv4Address.{Ipv4Address}
use libpgen.Layout.{Layout, array, u8, u16, ◌⊗◌, via, Memory, cast, store}
use libpgen.MacAddress
use libpgen.MacAddress.{MacAddress}

-- `struct arp_struct`
pub record ArpStruct : Type 0 where
  pub hwtype : ℕ
  pub ptype : ℕ
  pub hwlen : ℕ
  pub plen : ℕ
  pub operation : ℕ
  pub hwsrc : List ℕ
  pub psrc : List ℕ
  pub hwdst : List ℕ
  pub pdst : List ℕ

abbrev pub arp_struct : Layout ArpStruct
arp_struct =
    via (u16 ⊗ u16 ⊗ u8 ⊗ u8 ⊗ u16 ⊗ array 6 ⊗ array 4 ⊗ array 6 ⊗ array 4)
      (λ p. (
        p.hwtype,
        (p.ptype, (p.hwlen, (p.plen, (p.operation, (p.hwsrc, (p.psrc, (p.hwdst, p.pdst))))))),
      ))
      (λ t. record {
        hwtype = t.0;
        ptype = t.1.0;
        hwlen = t.1.1.0;
        plen = t.1.1.1.0;
        operation = t.1.1.1.1.0;
        hwsrc = t.1.1.1.1.1.0;
        psrc = t.1.1.1.1.1.1.0;
        hwdst = t.1.1.1.1.1.1.1.0;
        pdst = t.1.1.1.1.1.1.1.1;
      })
      (λ p. refl) (λ t. refl)

pub record ArpHeader : Type 0 where
  pub hwtype : ℕ
  pub ptype : ℕ
  pub hwlen : ℕ
  pub plen : ℕ
  pub operation : ℕ
  pub hwsrc : MacAddress
  pub psrc : Ipv4Address
  pub hwdst : MacAddress
  pub pdst : Ipv4Address

abbrev pub min_length : ℕ
min_length = 28

-- `arp::operation::request` and `arp::operation::reply`
abbrev pub request : ℕ
request = 1

abbrev pub reply : ℕ
reply = 2

abbrev on_hwdst : {A : Type 0} → Exec MacAddress A → Exec ArpHeader A
on_hwdst = member (λ h. h.hwdst) (λ a h. record h { hwdst = a })

unfoldable pub clear : Exec ArpHeader (Unit {0})
clear = do
  modify (λ h. record h {
    hwtype = 0x0001;
    ptype = 0x0800;
    hwlen = 6;
    plen = 4;
    operation = request;
    hwsrc = MacAddress.clear h.hwsrc;
    psrc = Ipv4Address.clear h.psrc;
  })
  on_hwdst (MacAddress.set_str (codes "ff:ff:ff:ff:ff:ff"))
  modify (λ h. record h { pdst = Ipv4Address.clear h.pdst })

unfoldable pub write : ArpHeader → ℕ → ℕ → Exec Memory (Unit {0})
write h at bufferlen = do
  throw_if (ltb bufferlen min_length) "pgen::arp_header::write: bufferlen is too small"
  store
      (arp_struct.put (record {
        hwtype = htons h.hwtype;
        ptype = htons h.ptype;
        hwlen = h.hwlen;
        plen = h.plen;
        operation = htons h.operation;
        hwsrc = MacAddress.copytoarray h.hwsrc;
        psrc = Ipv4Address.copytoarray h.psrc;
        hwdst = MacAddress.copytoarray h.hwdst;
        pdst = Ipv4Address.copytoarray h.pdst;
      }))
      at

unfoldable pub read : List ℕ → ℕ → ℕ → Exec ArpHeader (Unit {0})
read buf at bufferlen = do
  throw_if (ltb bufferlen min_length) "pgen::arp_header::read: bufferlen is too small"
  p ← cast arp_struct buf at
  modify (λ h. record h {
    hwtype = ntohs p.hwtype;
    ptype = ntohs p.ptype;
    hwlen = p.hwlen;
    plen = p.plen;
    operation = ntohs p.operation;
    hwsrc = MacAddress.setbyarray p.hwsrc h.hwsrc;
    psrc = Ipv4Address.setbyarray p.psrc h.psrc;
    hwdst = MacAddress.setbyarray p.hwdst h.hwdst;
    pdst = Ipv4Address.setbyarray p.pdst h.pdst;
  })

unfoldable pub length_of : ArpHeader → ℕ
length_of h = min_length

unfoldable pub ops : HeaderOps ArpHeader
ops = record { length_of = length_of; write = write; read = read }
