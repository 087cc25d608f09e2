-- ===== src/MacAddress/Laws.antt =====
-- The invariant of a MAC address, and what its methods do.
use libpgen.Base.{
  ℕ, suc, ◌-◌, ◌≤◌, ◌<◌, ◌≡◌, ◌≢◌, ◌%◌, ◌==◌, ==_iff, none, ◌↔◌, ◌⊎◌, refl, sym, ap, ap₂, ◌∙◌, List,
  [], ◌∷◌, true, some, arith, length, take, get_or, set, if◌then◌else◌, length-set, length-take_le,
  replicate, All-take, All-set, get_or-set_self, get_or-set_ne, take-length, inl, inr, Bool-cases,
  Option-cases,
}
use libpgen.Base.Bytes.{IsByte, IsBytes, to_u8}
use libpgen.Base.Int.{pos}
use libpgen.Base.Run.{ok, throw}
use libpgen.Base.Text.{Text, codes, scan_hex2, scan_char, hex_value}
use libpgen.MacAddress.{
  MacAddress, mac_length, update_name, clear, set_str, set_octet, get_octet, same_bytes, equal,
  setbyarray, copytoarray, format, scan,
}
use libpgen.MacAddress.Format.{scan-format, length-format, length-scan}
use mathlib.Core.List.{map}

pub record IsValid (m : MacAddress) : Type 0 where
  pub octets : length m.raw ≡ mac_length
  pub bytes : IsBytes m.raw
  pub named : m.name ≡ format m.raw

-- Equal octets make equal addresses, since the name follows from the octets.
pub IsValid-eq : {m n : MacAddress} → IsValid m → IsValid n → m.raw ≡ n.raw → m ≡ n
IsValid-eq {m} {n} v w e =
    let e' = v.named ∙ ap format e ∙ sym w.named in λ i. record { raw = e i; name = e' i }

pub clear-IsValid : (m : MacAddress) → IsValid (clear m)
unfolding clear
clear-IsValid m = record { octets = refl; bytes = omega arith; named = refl }

pub setbyarray-IsValid :
    (bs : List ℕ) (m : MacAddress) → IsBytes bs → mac_length ≤ length bs → IsValid (setbyarray bs m)
unfolding setbyarray
setbyarray-IsValid bs m p h = record {
  octets = length-take_le 6 bs h;
  bytes = All-take IsByte 6 bs p;
  named = refl;
}

-- `setbyarray` reads back what `copytoarray` wrote.
pub setbyarray-copytoarray :
    {m : MacAddress} (m0 : MacAddress) → IsValid m → setbyarray (copytoarray m) m0 ≡ m
unfolding setbyarray copytoarray
setbyarray-copytoarray {m} m0 v =
    let e : take 6 m.raw ≡ m.raw = take-length m.raw 6 (omega arith) in
    let e' : format (take 6 m.raw) ≡ m.name = ap format e ∙ sym v.named in
    λ i. record { raw = e i; name = e' i }

map-to_u8 : (bs : List ℕ) → IsBytes bs → map to_u8 bs ≡ bs
map-to_u8 [] p = refl
map-to_u8 (b ∷ bs) (p, ps) = ap₂ ◌∷◌ (omega arith) (map-to_u8 bs ps)

to_u8-IsBytes : (bs : List ℕ) → IsBytes (map to_u8 bs)
to_u8-IsBytes [] = tt
to_u8-IsBytes (b ∷ bs) = (omega arith, to_u8-IsBytes bs)

length-map_u8 : (bs : List ℕ) → length (map to_u8 bs) ≡ length bs
length-map_u8 [] = refl
length-map_u8 (b ∷ bs) = ap suc (length-map_u8 bs)

-- `set_str` of the text that `str` returns gives the address back, whatever it held before.
pub set_str-name : {m : MacAddress} (m0 : MacAddress) → IsValid m → set_str m.name m0 ≡ ok tt m
unfolding set_str
set_str-name {m} m0 v =
    rw (length_name, scan_name, map-to_u8 m.raw v.bytes)
      (ap (ok tt) (λ i. record { raw = m.raw; name = sym v.named i }))
  where
    length_name : length m.name ≡ 17
    length_name = rw v.named (length-format 5 m.raw v.octets)

    scan_name : scan 6 m.name ≡ some m.raw
    scan_name = rw (v.named, ← v.octets) (scan-format m.raw v.bytes)

-- The literal that the headers assign.
pub set_str_zeros : (m : MacAddress) → set_str (codes "00:00:00:00:00:00") m ≡ ok tt (clear m)
unfolding set_str clear scan scan_hex2 scan_char hex_value
set_str_zeros m = refl

abbrev pub broadcast : List ℕ
broadcast = replicate 6 255

pub set_str-broadcast :
    (m : MacAddress) → set_str (codes "ff:ff:ff:ff:ff:ff") m ≡ ok tt (setbyarray broadcast m)
unfolding set_str setbyarray scan scan_hex2 scan_char hex_value
set_str-broadcast m = refl

-- `set_str` accepts a text if and only if it has 17 characters and `sscanf` converts all six numbers of
-- it. Then the octets are the lowest 8 bits of these numbers, and the address is valid. Of any other
-- text it throws, and the address is as it was.
pub set_str_cases :
    (str : Text) (m : MacAddress)
    → ((numbers : List ℕ) × (m' : MacAddress) × (length str ≡ 17)
        × (scan 6 str ≡ some numbers)
        × (set_str str m ≡ ok tt m')
        × (m'.raw ≡ map (λ n. n % 256) numbers)
        × IsValid m')
      ⊎ (((length str ≢ 17) ⊎ (scan 6 str ≡ none))
          × (set_str str m ≡ throw "pgen::macaddress::set_str: Format error" m))
unfolding set_str
set_str_cases str m = elim (Bool-cases (length str == 17)) [
  | inr bad ↦ inr (inl (λ e. cc (bad, (==_iff (length str) 17).1 e)), rw bad refl)
  | inl good ↦ elim (Option-cases (scan 6 str)) [
    | inl e ↦ inr (inr e, rw (good, e) refl)
    | inr (bs, e) ↦ inl (
      bs,
      update_name (record m { raw = map to_u8 bs }),
      (==_iff (length str) 17).0 good,
      e,
      rw (good, e) refl,
      refl,
      record {
        octets = length-map_u8 bs ∙ length-scan 6 str bs e;
        bytes = to_u8-IsBytes bs;
        named = refl;
      },
    )
  ]
]

-- `set_octet` changes the octet at an index of 1 to 6 and no other, and keeps the invariant.
pub get_octet-set_octet_mac :
    {m : MacAddress} (i j oct : ℕ)
    → IsValid m
    → 1 ≤ i
    → i ≤ 6
    → 1 ≤ j
    → j ≤ 6
    → oct < 256
    → (m' : MacAddress) × (set_octet (pos i) oct m ≡ ok tt m')
      × IsValid m'
      × (get_octet (pos j) m' ≡ (if i == j then ok oct m' else ok (get_or m.raw (j - 1) 0) m'))
unfolding set_octet get_octet
get_octet-set_octet_mac {m} i j oct v h k h' k' o = (
  update_name (record m { raw = set m.raw (i - 1) oct }),
  ground arith,
  record {
    octets = length-set m.raw (i - 1) oct ∙ v.octets;
    bytes = All-set IsByte m.raw (i - 1) oct v.bytes o;
    named = refl;
  },
  ground (arith, get_or-set_self m.raw (i - 1) oct 0, get_or-set_ne m.raw (i - 1) (j - 1) oct 0),
)

pub same_bytes_iff : (xs ys : List ℕ) → (same_bytes xs ys ≡ true) ↔ (xs ≡ ys)
same_bytes_iff [] [] = (λ h. refl, λ h. refl)
same_bytes_iff [] (y ∷ ys) = (λ h. cc, λ h. cc)
same_bytes_iff (x ∷ xs) [] = (λ h. cc, λ h. cc)
same_bytes_iff (x ∷ xs) (y ∷ ys) =
    (λ h. ground (arith, (same_bytes_iff xs ys).0), λ h. ground (arith, (same_bytes_iff xs ys).1))

-- `operator==` compares octets, and on valid addresses that is equality of the objects.
pub equal_iff_mac : {m n : MacAddress} → IsValid m → IsValid n → (equal m n ≡ true) ↔ (m ≡ n)
unfolding equal
equal_iff_mac {m} {n} v w = (
  λ h. IsValid-eq v w ((same_bytes_iff m.raw n.raw).0 h),
  λ e. (same_bytes_iff m.raw n.raw).1 (ap (λ (a : MacAddress). a.raw) e),
)
