-- ===== src/Ipv6Address.antt =====
-- pgen/core/ipaddress.h: the class `ipv6address`. An object is eight `uint16_t` sections as they
-- lie in memory, first byte lowest, and the text kept beside them.
pub mod Laws
use libpgen.Base.{
  ℕ, ◌+◌, ◌-◌, List, [], ◌∷◌, ◌++◌, Bool, not, Option, none, some, length, take, get_or, set,
  replicate,
}
use libpgen.Base.Bytes.{ntohs}
use libpgen.Base.Int.{ℤ, place}
use libpgen.Base.Run.{Run, ok, Exec, raise, modify, ◌>>=◌, ◌>>◌}
use libpgen.Base.Text.{Text, hex4}
use libpgen.Ipv4Address.{Pton}
use libpgen.MacAddress.{same_bytes}

pub record Ipv6Address : Type 0 where
  pub raw : List ℕ
  pub name : Text

-- `ipv6address::length / sizeof(uint16_t)`
abbrev pub sections : ℕ
sections = 8

abbrev pub sections_rest : List ℕ → Text
sections_rest [] = []
sections_rest (w ∷ ws) = b':' ∷ (hex4 (ntohs w) ++ sections_rest ws)

-- sprintf(.., "%04x:%04x:..", ntohs(_raw[0]), ntohs(_raw[1]), ..)
unfoldable pub sections_text : List ℕ → Text
sections_text [] = []
sections_text (w ∷ ws) = hex4 (ntohs w) ++ sections_rest ws

abbrev pub update_name : Ipv6Address → Ipv6Address
update_name a = record a { name = sections_text a.raw }

unfoldable pub clear : Ipv6Address → Ipv6Address
clear a = update_name (record a { raw = replicate sections 0 })

-- `inet_pton(AF_INET6, ..)` gives the eight sections, or nothing and the target unchanged.
-- It returns -1 only for another family, so that result does not occur.
pub set_str : Pton → Text → Exec Ipv6Address (Unit {0})
set_str inet_pton str a = elim (inet_pton str) [
  | none ↦ raise "pgen::ipv6address::set_str(IPv6): Format error" a
  | some words ↦ ok tt (update_name (record a { raw = words }))
]

pub set_section : ℤ → ℕ → Exec Ipv6Address (Unit {0})
set_section index num a = elim (place 8 index) [
  | none ↦ raise "pgen::ipv6address::set_section6: index, 1st-arg is faild" a
  | some i ↦ ok tt (update_name (record a { raw = set a.raw i num }))
]

pub get_section : ℤ → Exec Ipv6Address ℕ
get_section index a = elim (place 8 index) [
  | none ↦ raise "pgen::ipv6address::get_section6: index, 1st-arg is faild" a
  | some i ↦ ok (get_or a.raw i 0) a
]

pub assign : Ipv6Address → Ipv6Address → Ipv6Address
assign rhs a = record { raw = rhs.raw; name = rhs.name }

pub equal : Ipv6Address → Ipv6Address → Bool
equal a rhs = same_bytes a.raw rhs.raw

pub not_equal : Ipv6Address → Ipv6Address → Bool
unfolding equal
not_equal a rhs = not (equal a rhs)

unfoldable pub setbyarray : List ℕ → Ipv6Address → Ipv6Address
setbyarray array a = update_name (record a { raw = take sections array })

unfoldable pub copytoarray : Ipv6Address → List ℕ
copytoarray a = a.raw

-- The constructors, and `operator=` from a text. The object holds any values before.
pub construct : Exec Ipv6Address (Unit {0})
unfolding clear
construct = modify clear

pub construct_copy : Ipv6Address → Exec Ipv6Address (Unit {0})
unfolding assign
construct_copy a = modify (assign a)

pub construct_str : Pton → Text → Exec Ipv6Address (Unit {0})
unfolding clear set_str
construct_str inet_pton str = do modify clear; set_str inet_pton str

pub assign_str : Pton → Text → Exec Ipv6Address (Unit {0})
unfolding set_str
assign_str inet_pton str = set_str inet_pton str
