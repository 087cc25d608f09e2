-- ===== src/Ipv4Address/Laws.antt =====
-- The invariant of an IPv4 address, and what its methods do.
use libpgen.Base.{
  ℕ, ◌-◌, ◌≤◌, ◌<◌, ◌≡◌, ◌↔◌, refl, sym, ap, ◌∙◌, List, some, true, arith, length, take, get_or,
  set, ◌==◌, if◌then◌else◌, length-set, length-take_le, replicate, All-take, All-set,
  get_or-set_self, get_or-set_ne, take-length,
}
use libpgen.Base.Bytes.{IsByte, IsBytes}
use libpgen.Base.Int.{pos}
use libpgen.Base.Run.{ok}
use libpgen.Base.Text.{Text}
use libpgen.Ipv4Address.{
  Ipv4Address, ipv4_length, dotted, update_name, clear, Pton, set_str, set_octet, get_octet, equal,
  setbyarray, copytoarray,
}
use libpgen.MacAddress.Laws.{same_bytes_iff}

pub record IsValid (a : Ipv4Address) : Type 0 where
  pub octets : length a.raw ≡ ipv4_length
  pub bytes : IsBytes a.raw
  pub named : a.name ≡ dotted a.raw

pub IsValid-eq : {a b : Ipv4Address} → IsValid a → IsValid b → a.raw ≡ b.raw → a ≡ b
IsValid-eq {a} {b} v w e =
    let e' = v.named ∙ ap dotted e ∙ sym w.named in λ i. record { raw = e i; name = e' i }

pub clear-IsValid : (a : Ipv4Address) → IsValid (clear a)
unfolding clear
clear-IsValid a = record { octets = refl; bytes = omega arith; named = refl }

pub setbyarray-IsValid :
    (bs : List ℕ) (a : Ipv4Address)
    → IsBytes bs
    → ipv4_length ≤ length bs
    → IsValid (setbyarray bs a)
unfolding setbyarray
setbyarray-IsValid bs a p h = record {
  octets = length-take_le 4 bs h;
  bytes = All-take IsByte 4 bs p;
  named = refl;
}

-- `setbyarray` reads back what `copytoarray` wrote.
pub setbyarray-copytoarray :
    {a : Ipv4Address} (a0 : Ipv4Address) → IsValid a → setbyarray (copytoarray a) a0 ≡ a
unfolding setbyarray copytoarray
setbyarray-copytoarray {a} a0 v =
    let e : take 4 a.raw ≡ a.raw = take-length a.raw 4 (omega arith) in
    let e' : dotted (take 4 a.raw) ≡ a.name = ap dotted e ∙ sym v.named in
    λ i. record { raw = e i; name = e' i }

-- Where `inet_pton` reads dotted decimal, `set_str` of the text that `str` returns gives the
-- address back, whatever the object held before.
pub set_str-name :
    (inet_pton : Pton)
    → ((bs : List ℕ) → length bs ≡ 4 → IsBytes bs → inet_pton (dotted bs) ≡ some bs)
    → {a : Ipv4Address} (a0 : Ipv4Address) → IsValid a
    → set_str inet_pton a.name a0 ≡ ok tt a
unfolding set_str
set_str-name inet_pton reads {a} a0 v =
    let e = ap inet_pton v.named ∙ reads a.raw v.octets v.bytes in
    rw (e, set_str) (ap (ok tt) (λ i. record { raw = a.raw; name = sym v.named i }))

-- A text that `inet_pton` reads as four zeros clears the address.
pub set_str_zeros :
    (inet_pton : Pton) (str : Text) (a : Ipv4Address)
    → inet_pton str ≡ some (replicate 4 0)
    → set_str inet_pton str a ≡ ok tt (clear a)
unfolding set_str clear
set_str_zeros inet_pton str a e = rw (e, set_str)

-- `set_octet` changes the octet at an index of 1 to 4 and no other, and keeps the invariant.
pub get_octet-set_octet_ipv4 :
    {a : Ipv4Address} (i j oct : ℕ)
    → IsValid a
    → 1 ≤ i
    → i ≤ 4
    → 1 ≤ j
    → j ≤ 4
    → oct < 256
    → (a' : Ipv4Address) × (set_octet (pos i) oct a ≡ ok tt a')
      × IsValid a'
      × (get_octet (pos j) a' ≡ (if i == j then ok oct a' else ok (get_or a.raw (j - 1) 0) a'))
unfolding set_octet get_octet
get_octet-set_octet_ipv4 {a} i j oct v h k h' k' o = (
  update_name (record a { raw = set a.raw (i - 1) oct }),
  ground arith,
  record {
    octets = length-set a.raw (i - 1) oct ∙ v.octets;
    bytes = All-set IsByte a.raw (i - 1) oct v.bytes o;
    named = refl;
  },
  ground (arith, get_or-set_self a.raw (i - 1) oct 0, get_or-set_ne a.raw (i - 1) (j - 1) oct 0),
)

-- `operator==` compares octets, and on valid addresses that is equality of the objects.
pub equal_iff_ipv4 : {a b : Ipv4Address} → IsValid a → IsValid b → (equal a b ≡ true) ↔ (a ≡ b)
unfolding equal
equal_iff_ipv4 {a} {b} v w = (
  λ h. IsValid-eq v w ((same_bytes_iff a.raw b.raw).0 h),
  λ e. (same_bytes_iff a.raw b.raw).1 (ap (λ (c : Ipv4Address). c.raw) e),
)
