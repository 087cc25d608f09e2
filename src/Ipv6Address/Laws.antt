-- ===== src/Ipv6Address/Laws.antt =====
-- The invariant of an IPv6 address, and what its methods do.
use libpgen.Base.{
  ℕ, ◌-◌, ◌≤◌, ◌<◌, ◌≡◌, ◌↔◌, refl, sym, ap, ◌∙◌, List, true, arith, take, get_or, set, ◌==◌,
  if◌then◌else◌, length-set, length-take_le, All-take, All-set, get_or-set_self, get_or-set_ne,
  take-length,
}
use libpgen.Base.Bytes.{IsWord, WordsFit}
use libpgen.Base.Int.{pos}
use libpgen.Base.Run.{ok}
use libpgen.Ipv6Address.{
  Ipv6Address, sections, sections_text, update_name, clear, set_section, get_section, equal,
  setbyarray, copytoarray,
}
use libpgen.MacAddress.Laws.{same_bytes_iff}

pub record IsValid (a : Ipv6Address) : Type 0 where
  pub words : WordsFit sections a.raw
  pub named : a.name ≡ sections_text a.raw

pub IsValid-eq : {a b : Ipv6Address} → IsValid a → IsValid b → a.raw ≡ b.raw → a ≡ b
IsValid-eq {a} {b} v w e =
    let e' = v.named ∙ ap sections_text e ∙ sym w.named in λ i. record { raw = e i; name = e' i }

pub clear-IsValid : (a : Ipv6Address) → IsValid (clear a)
unfolding clear
clear-IsValid a = record { words = (refl, omega arith); named = refl }

pub setbyarray-IsValid :
    (ws : List ℕ) (a : Ipv6Address) → WordsFit sections ws → IsValid (setbyarray ws a)
unfolding setbyarray
setbyarray-IsValid ws a (e, p) = record {
  words = (length-take_le 8 ws (omega arith), All-take IsWord 8 ws p);
  named = refl;
}

-- `setbyarray` reads back what `copytoarray` wrote.
pub setbyarray-copytoarray :
    {a : Ipv6Address} (a0 : Ipv6Address) → IsValid a → setbyarray (copytoarray a) a0 ≡ a
unfolding setbyarray copytoarray
setbyarray-copytoarray {a} a0 v =
    let e : take 8 a.raw ≡ a.raw = take-length a.raw 8 (omega (arith, v.words.0)) in
    let e' : sections_text (take 8 a.raw) ≡ a.name = ap sections_text e ∙ sym v.named in
    λ i. record { raw = e i; name = e' i }

-- `set_section` changes the section at an index of 1 to 8 and no other, and keeps the invariant.
pub get_section-set_section :
    {a : Ipv6Address} (i j num : ℕ)
    → IsValid a
    → 1 ≤ i
    → i ≤ 8
    → 1 ≤ j
    → j ≤ 8
    → num < 65536
    → (a' : Ipv6Address) × (set_section (pos i) num a ≡ ok tt a')
      × IsValid a'
      × (get_section (pos j) a' ≡ (if i == j then ok num a' else ok (get_or a.raw (j - 1) 0) a'))
unfolding set_section get_section
get_section-set_section {a} i j num v h k h' k' o = (
  update_name (record a { raw = set a.raw (i - 1) num }),
  ground arith,
  record {
    words =
        (length-set a.raw (i - 1) num ∙ v.words.0, All-set IsWord a.raw (i - 1) num v.words.1 o);
    named = refl;
  },
  ground (
    arith,
    v.words.0,
    get_or-set_self a.raw (i - 1) num 0,
    get_or-set_ne a.raw (i - 1) (j - 1) num 0,
  ),
)

-- `operator==` compares the sections, and on valid addresses that is equality of the objects.
pub equal_iff_ipv6 : {a b : Ipv6Address} → IsValid a → IsValid b → (equal a b ≡ true) ↔ (a ≡ b)
unfolding equal
equal_iff_ipv6 {a} {b} v w = (
  λ h. IsValid-eq v w ((same_bytes_iff a.raw b.raw).0 h),
  λ e. (same_bytes_iff a.raw b.raw).1 (ap (λ (c : Ipv6Address). c.raw) e),
)
