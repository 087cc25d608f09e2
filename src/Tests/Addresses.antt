-- ===== src/Tests/Addresses.antt =====
-- Addresses: texts that are read and rejected, and octets that are set.
use libpgen.Base.{ℕ, List, ◌%◌, ◌≢◌, length, some, none, ◌≡◌, ◌⊎◌, refl, [], ◌∷◌, arith}
use libpgen.Base.Run.{ok, throw}
use libpgen.Base.Text.{Text, codes}
use libpgen.Ipv4Address
use libpgen.Ipv4Address.{Ipv4Address}
use libpgen.Ipv4Address.Laws as Ipv4Laws
use libpgen.Ipv6Address
use libpgen.Ipv6Address.{Ipv6Address}
use libpgen.Ipv6Address.Laws as Ipv6Laws
use libpgen.MacAddress
use libpgen.MacAddress.{MacAddress}
use libpgen.MacAddress.Laws as MacLaws
use libpgen.Tests.Data.{any_mac, any_ipv4, any_ipv6}
use mathlib.Core.List.{map}

abbrev mac : MacAddress
mac = MacAddress.setbyarray (0 ∷ 17 ∷ 34 ∷ 171 ∷ 205 ∷ 255 ∷ []) any_mac

mac-IsValid : MacLaws.IsValid mac
mac-IsValid =
    MacLaws.setbyarray-IsValid (0 ∷ 17 ∷ 34 ∷ 171 ∷ 205 ∷ 255 ∷ []) any_mac (omega arith)
      (omega arith)

abbrev ipv4 : Ipv4Address
ipv4 = Ipv4Address.setbyarray (192 ∷ 168 ∷ 0 ∷ 10 ∷ []) any_ipv4

ipv4-IsValid : Ipv4Laws.IsValid ipv4
ipv4-IsValid =
    Ipv4Laws.setbyarray-IsValid (192 ∷ 168 ∷ 0 ∷ 10 ∷ []) any_ipv4 (omega arith) (omega arith)

abbrev ipv6 : Ipv6Address
ipv6 = Ipv6Address.setbyarray (544 ∷ 0 ∷ 0 ∷ 0 ∷ 0 ∷ 0 ∷ 0 ∷ 256 ∷ []) any_ipv6

ipv6-IsValid : Ipv6Laws.IsValid ipv6
ipv6-IsValid =
    Ipv6Laws.setbyarray-IsValid (544 ∷ 0 ∷ 0 ∷ 0 ∷ 0 ∷ 0 ∷ 0 ∷ 256 ∷ []) any_ipv6
      (refl, omega arith)

set_str-name_example : MacAddress.set_str mac.name any_mac ≡ ok tt mac
set_str-name_example = MacLaws.set_str-name any_mac mac-IsValid

abbrev mixed_case : Text
mixed_case = codes "00:11:22:ab:CD:ff"

set_str_cases_example :
    ((numbers : List ℕ) × (m' : MacAddress) × (length mixed_case ≡ 17)
      × (MacAddress.scan 6 mixed_case ≡ some numbers)
      × (MacAddress.set_str mixed_case any_mac ≡ ok tt m')
      × (m'.raw ≡ map (λ n. n % 256) numbers)
      × MacLaws.IsValid m')
    ⊎ (((length mixed_case ≢ 17) ⊎ (MacAddress.scan 6 mixed_case ≡ none))
        × (MacAddress.set_str mixed_case any_mac
            ≡ throw "pgen::macaddress::set_str: Format error" any_mac))
set_str_cases_example = MacLaws.set_str_cases mixed_case any_mac
