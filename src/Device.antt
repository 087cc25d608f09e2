-- ===== src/Device.antt =====
-- `setbydev` of pgen/core/macaddress.h and pgen/core/ipaddress.h: the address of a network interface,
-- asked of the system. The system calls are parameters; -1 as a call's result is `none`.
pub mod Laws
pub mod Inet6
use libpgen.Base.{
  String, ℕ, zero, suc, ◌+◌, ◌*◌, List, [], ◌∷◌, Bool, true, false, not, Option, none, some, length,
  take, drop, leb, ltb, ◌==◌, ◌&&◌, if◌then◌else◌, get_or,
}
use libpgen.Base.Run.{
  Exec, Run, ok, throw, fault, raise, pure, undefined, throw_if, modify, member, ◌>>=◌, ◌>>◌,
}
use libpgen.Base.Text.{Text}
use libpgen.Ipv4Address
use libpgen.Ipv4Address.{Ipv4Address}
use libpgen.Ipv6Address
use libpgen.Ipv6Address.{Ipv6Address}
use libpgen.Layout.{u16_view}
use libpgen.MacAddress
use libpgen.MacAddress.{MacAddress, same_bytes}

-- An entry of the list of `getifaddrs`: the name, and the family and the bytes of the address, where
-- the entry has one.
pub record Ifaddr : Type 0 where
  pub name : Text
  pub addr : Option (ℕ × List ℕ)

pub record Calls (Kernel : Type 0) : Type 0 where
  -- `socket(AF_INET, SOCK_DGRAM, 0)`
  pub socket : Kernel → Option ℕ × Kernel
  pub close : ℕ → Kernel → Kernel
  -- `ioctl` with SIOCGIFHWADDR: the bytes of `ifr_hwaddr.sa_data`.
  pub get_hwaddr : ℕ → Text → Kernel → Option (List ℕ) × Kernel
  -- `ioctl` with SIOCGIFADDR: the bytes of `sin_addr`.
  pub get_addr : ℕ → Text → Kernel → Option (List ℕ) × Kernel
  pub getifaddrs : Kernel → Option (List Ifaddr) × Kernel
  pub freeifaddrs : Kernel → Kernel

-- IFNAMSIZ, with the zero at the end.
abbrev pub name_size : ℕ
name_size = 16

-- AF_INET6
abbrev pub inet6 : ℕ
inet6 = 10

-- AF_LINK
abbrev pub link : ℕ
link = 18

-- The loop of `getmacbydev` on OS X. An entry of the name that has no address makes it read through a
-- null pointer, which is none; a list without the address is `some none`.
pub find_link : Text → List Ifaddr → Option (Option (List ℕ))
find_link dev [] = some none
find_link dev (ifa ∷ ifas) =
    let rest = find_link dev ifas in
    if same_bytes ifa.name dev
    then elim ifa.addr [
      | none ↦ none
      | some a ↦ if a.0 == link then some (some (take 6 a.1)) else rest
    ]
    else rest

-- `memcpy` of 16 bytes into eight 16-bit numbers
abbrev pub words_of : ℕ → List ℕ → List ℕ
words_of zero bytes = []
words_of (suc n) bytes = u16_view bytes ∷ words_of n (drop 2 bytes)

-- The address of an entry that the loop of `getipv6bydev` stops at.
unfoldable pub address_in : Text → Ifaddr → Option (List ℕ)
address_in dev ifa = elim ifa.addr [
  | none ↦ none
  | some a ↦ if same_bytes ifa.name dev && a.0 == inet6 then some (words_of 8 a.1) else none
]

-- The loop over the list.
unfoldable pub find_address : Text → List Ifaddr → Option (List ℕ)
find_address dev [] = none
find_address dev (ifa ∷ ifas) =
    let rest = find_address dev ifas in
    elim (address_in dev ifa) [ some words ↦ some words | none ↦ rest ]

module _ {Kernel : Type 0} (calls : Calls Kernel) where
  abbrev pub call : {A : Type 0} → (Kernel → A × Kernel) → Exec Kernel A
  call f k = ok (f k).0 (f k).1

  abbrev pub or_throw : {A : Type 0} → String → Option A → Exec Kernel A
  or_throw text none = raise text
  or_throw text (some a) = pure a

  -- The steps that `getmacbydev` and `getipv4bydev` share: `request` is the `ioctl`, and of what it
  -- leaves in the struct the first `n` bytes are copied.
  abbrev pub by_ioctl :
      ℕ
      → String
      → String
      → String
      → (ℕ → Text → Kernel → Option (List ℕ) × Kernel)
      → Text
      → Exec Kernel (List ℕ)
  by_ioctl n name_error socket_error ioctl_error request dev = do
    throw_if (leb name_size (length dev)) name_error
    opened ← call calls.socket
    sockd ← or_throw socket_error opened
    ret ← call (request sockd dev)
    modify (calls.close sockd)
    bytes ← or_throw ioctl_error ret
    pure (take n bytes)

  -- As it is on Linux.
  unfoldable pub getmacbydev : Text → Exec Kernel (List ℕ)
  getmacbydev dev =
      by_ioctl 6 "pgen::getmacbydev: Interface name size is too large" "pgen::getmacbydev:socket: "
        "pgen::getmacbydev:ioctl: " calls.get_hwaddr dev

  unfoldable pub getipv4bydev : Text → Exec Kernel (List ℕ)
  getipv4bydev dev =
      by_ioctl 4 "pgen::getipv4bydev: Interface name size is too large"
        "pgen::getipv4bydev:socket: " "pgen::getipv4bydev:ioctl: " calls.get_addr dev

  -- As it is on OS X. The list is not given back where the loop found nothing.
  pub getmacbydev_osx : Text → Exec Kernel (List ℕ)
  unfolding find_link
  getmacbydev_osx dev = do
    listed ← call calls.getifaddrs
    ifap ← or_throw "pgen::getmacbydev:getifaddrs: undefined error" listed
    elim (find_link dev ifap) [
      | none ↦ undefined
      | some found ↦ elim found [
        | none ↦ raise "pgen::getmacbydev: Unknown error"
        | some mac ↦ modify calls.freeifaddrs >> pure mac
      ]
    ]

  -- The result of `getifaddrs` is not looked at: where the call failed, the loop reads a pointer that
  -- nothing has set.
  unfoldable pub getipv6bydev : Text → Exec Kernel (List ℕ)
  unfolding find_address
  getipv6bydev dev = do
    throw_if (leb name_size (length dev)) "pgen::getipv6bydev: Interface name size is too large"
    listed ← call calls.getifaddrs
    elim listed [
      | none ↦ undefined
      | some if_list ↦
          modify calls.freeifaddrs
          >> or_throw "pgen::getipv6bydev: can't get address" (find_address dev if_list)
    ]

-- An address object and the kernel.
pub record Asking (Kernel Address : Type 0) : Type 0 where
  pub kernel : Kernel
  pub address : Address

module _ {Kernel : Type 0} (calls : Calls Kernel) where
  abbrev pub asked :
      {Address : Type 0}
      → Exec Kernel (List ℕ)
      → (List ℕ → Address → Address)
      → Exec (Asking Kernel Address) (Unit {0})
  asked get set = do
    raw ← member (λ s. s.kernel) (λ k s. record s { kernel = k }) get
    modify (λ s. record s { address = set raw s.address })

  -- `getmacbydev(ifname, _raw); _update_name();`
  unfoldable pub setbydev_mac : Text → Exec (Asking Kernel MacAddress) (Unit {0})
  unfolding getmacbydev
  setbydev_mac ifname =
      asked (getmacbydev calls ifname) (λ raw m. MacAddress.update_name (record m { raw = raw }))

  unfoldable pub setbydev_ipv4 : Text → Exec (Asking Kernel Ipv4Address) (Unit {0})
  unfolding getipv4bydev
  setbydev_ipv4 ifname =
      asked (getipv4bydev calls ifname) (λ raw a. Ipv4Address.update_name (record a { raw = raw }))

  unfoldable pub setbydev_ipv6 : Text → Exec (Asking Kernel Ipv6Address) (Unit {0})
  unfolding getipv6bydev
  setbydev_ipv6 ifname =
      asked (getipv6bydev calls ifname) (λ raw a. Ipv6Address.update_name (record a { raw = raw }))
