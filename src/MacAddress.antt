-- ===== src/MacAddress.antt =====
-- pgen/core/macaddress.h: the class `macaddress`. An object is its six octets and the text kept
-- beside them; the methods that change it may throw.
pub mod Format
pub mod Laws
unfoldable pub use Format.{format, scan}
use libpgen.Base.{
  ℕ, ◌+◌, ◌*◌, ◌-◌, ◌≡◌, List, [], ◌∷◌, Bool, true, false, not, Option, none, some, length, take,
  get_or, set, replicate, ◌==◌, if◌then◌else◌,
}
use libpgen.Base.Bytes.{to_u8}
use libpgen.Base.Int.{ℤ, place}
use libpgen.Base.Run.{Run, ok, throw, Exec, pure, raise, modify, throw_if, get, ◌>>=◌, ◌>>◌}
use libpgen.Base.Text.{Text, codes}
use mathlib.Core.List.{map}

pub record MacAddress : Type 0 where
  pub raw : List ℕ
  pub name : Text

-- `macaddress::length` and `macaddress::strlength`
abbrev pub mac_length : ℕ
mac_length = 6

abbrev pub strlength : ℕ
strlength = 3 * mac_length - 1

abbrev pub update_name : MacAddress → MacAddress
update_name m = record m { name = format m.raw }

unfoldable pub clear : MacAddress → MacAddress
clear m = update_name (record m { raw = replicate mac_length 0 })

abbrev pub set_octets : Option (List ℕ) → Exec MacAddress (Unit {0})
set_octets none = raise "pgen::macaddress::set_str: Format error"
set_octets (some octets) = modify (λ m. update_name (record m { raw = map to_u8 octets }))

unfoldable pub set_str : Text → Exec MacAddress (Unit {0})
set_str str = do
  throw_if (not (length str == strlength)) "pgen::macaddress::set_str: Format error"
  set_octets (scan mac_length str)

abbrev octet_error : {A : Type 0} → Exec MacAddress A
octet_error = raise "pgen::macaddress::set_octet: index, 1st-arg is faild"

pub set_octet : ℤ → ℕ → Exec MacAddress (Unit {0})
set_octet index oct m = elim (place 6 index) [
  | none ↦ octet_error m
  | some i ↦ ok tt (update_name (record m { raw = set m.raw i oct }))
]

pub get_octet : ℤ → Exec MacAddress ℕ
get_octet index m = elim (place 6 index) [ none ↦ octet_error m | some i ↦ ok (get_or m.raw i 0) m ]

-- `operator=` from another address: `memcpy` of the octets, and the name as it stands.
pub assign : MacAddress → MacAddress → MacAddress
assign rhs m = record { raw = rhs.raw; name = rhs.name }

-- `memcmp(_raw, rhs._raw, sizeof(_raw)) == 0`
abbrev pub same_bytes : List ℕ → List ℕ → Bool
same_bytes [] [] = true
same_bytes (x ∷ xs) (y ∷ ys) = if x == y then same_bytes xs ys else false
same_bytes _ _ = false

pub equal : MacAddress → MacAddress → Bool
equal m rhs = same_bytes m.raw rhs.raw

pub not_equal : MacAddress → MacAddress → Bool
unfolding equal
not_equal m rhs = not (equal m rhs)

unfoldable pub setbyarray : List ℕ → MacAddress → MacAddress
setbyarray array m = update_name (record m { raw = take mac_length array })

unfoldable pub copytoarray : MacAddress → List ℕ
copytoarray m = m.raw

-- `*this = "ff:ff:ff:ff:ff:ff"`
pub setbcast : Exec MacAddress (Unit {0})
unfolding set_str
setbcast = set_str (codes "ff:ff:ff:ff:ff:ff")

pub get_bender : Exec MacAddress Text
get_bender = raise "pgen::macaddress::get_bender: Not implement yet"

-- The constructors, and `operator=` from a text. The object holds any values before.
pub construct : Exec MacAddress (Unit {0})
unfolding clear
construct = modify clear

pub construct_copy : MacAddress → Exec MacAddress (Unit {0})
unfolding assign
construct_copy m = modify (assign m)

pub construct_str : Text → Exec MacAddress (Unit {0})
unfolding set_str
construct_str str = set_str str

pub assign_str : Text → Exec MacAddress (Unit {0})
unfolding set_str
assign_str str = set_str str
