-- ===== src/Ipv4Address.antt =====
-- pgen/core/ipaddress.h: the class `ipv4address`. An object is its four octets and the text kept
-- beside them. The parser `inet_pton` is the operating system's, and a parameter.
pub mod Laws
use libpgen.Base.{
  ℕ, ◌+◌, ◌-◌, List, [], ◌∷◌, ◌++◌, Bool, not, Option, none, some, length, take, get_or, set,
  replicate,
}
use libpgen.Base.Int.{ℤ, place}
use libpgen.Base.Run.{Run, ok, Exec, raise, modify, ◌>>=◌, ◌>>◌}
use libpgen.Base.Text.{Text, decimal}
use libpgen.MacAddress.{same_bytes}

pub record Ipv4Address : Type 0 where
  pub raw : List ℕ
  pub name : Text

-- `ipv4address::length`
abbrev pub ipv4_length : ℕ
ipv4_length = 4

abbrev pub dotted_rest : List ℕ → Text
dotted_rest [] = []
dotted_rest (b ∷ bs) = b'.' ∷ (decimal b ++ dotted_rest bs)

-- sprintf(.., "%d.%d.%d.%d", _raw[0], _raw[1], _raw[2], _raw[3])
unfoldable pub dotted : List ℕ → Text
dotted [] = []
dotted (b ∷ bs) = decimal b ++ dotted_rest bs

abbrev pub update_name : Ipv4Address → Ipv4Address
update_name a = record a { name = dotted a.raw }

unfoldable pub clear : Ipv4Address → Ipv4Address
clear a = update_name (record a { raw = replicate ipv4_length 0 })

-- What `inet_pton(AF_INET, ..)` makes of a text: four octets, or nothing and the target unchanged.
abbrev pub Pton : Type 0
Pton = Text → Option (List ℕ)

unfoldable pub set_str : Pton → Text → Exec Ipv4Address (Unit {0})
set_str inet_pton str a = elim (inet_pton str) [
  | none ↦ raise "pgen::ipv4address::set_str(IPv4): Format error" a
  | some octets ↦ ok tt (update_name (record a { raw = octets }))
]

pub set_octet : ℤ → ℕ → Exec Ipv4Address (Unit {0})
set_octet index oct a = elim (place 4 index) [
  | none ↦ raise "pgen::ipv4address::set_octet4: index, 1st-arg is faild" a
  | some i ↦ ok tt (update_name (record a { raw = set a.raw i oct }))
]

pub get_octet : ℤ → Exec Ipv4Address ℕ
get_octet index a = elim (place 4 index) [
  | none ↦ raise "pgen::ipv4address::set_octet: index, 1st-arg is faild" a
  | some i ↦ ok (get_or a.raw i 0) a
]

pub assign : Ipv4Address → Ipv4Address → Ipv4Address
assign rhs a = record { raw = rhs.raw; name = rhs.name }

pub equal : Ipv4Address → Ipv4Address → Bool
equal a rhs = same_bytes a.raw rhs.raw

pub not_equal : Ipv4Address → Ipv4Address → Bool
unfolding equal
not_equal a rhs = not (equal a rhs)

unfoldable pub setbyarray : List ℕ → Ipv4Address → Ipv4Address
setbyarray array a = update_name (record a { raw = take ipv4_length array })

unfoldable pub copytoarray : Ipv4Address → List ℕ
copytoarray a = a.raw

-- The constructors, and `operator=` from a text. The object holds any values before.
pub construct : Exec Ipv4Address (Unit {0})
unfolding clear
construct = modify clear

pub construct_copy : Ipv4Address → Exec Ipv4Address (Unit {0})
unfolding assign
construct_copy a = modify (assign a)

pub construct_str : Pton → Text → Exec Ipv4Address (Unit {0})
unfolding clear set_str
construct_str inet_pton str = do modify clear; set_str inet_pton str

pub assign_str : Pton → Text → Exec Ipv4Address (Unit {0})
unfolding set_str
assign_str inet_pton str = set_str inet_pton str
