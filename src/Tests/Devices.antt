-- ===== src/Tests/Devices.antt =====
-- A system with two interfaces, whose kernel is the list of the descriptors that are open, and the header of
-- the example in a buffer of its own length.
use libpgen.Base.{
  sym, ℕ, suc, ◌∙◌, ◌==◌, ==_iff, Option, if◌then◌else◌, ◌≤◌, ◌<◌, ◌≡◌, ◌⊎◌, refl, ap, subst, List,
  [], ◌∷◌, ◌++◌, some, none, arith, length, replicate,
}
use libpgen.Base.Bytes.{IsBytes}
use libpgen.Base.Run.{Run, ok, throw, fault}
use libpgen.Base.Splice.{splice}
use libpgen.Base.Text.{codes}
use libpgen.Device.{Calls, Ifaddr, Asking, setbydev_mac, setbydev_ipv6}
use libpgen.Device.Inet6.{HasNone, IsInet6, pairs, setbydev_ipv6_cases}
use libpgen.Device.Laws.{IsSystem, Ends, setbydev_mac-Ends}
use libpgen.Ipv6Address.{Ipv6Address, sections_text}
use libpgen.MacAddress.Laws as Mac
use libpgen.Tests.Data.{any_mac, any_ipv6}
use libpgen.Tmp.{TmpHeader, tmp_struct, write, length_of}
use libpgen.Tmp.Laws.{to_struct, write_own_length}

abbrev loopback : Ifaddr
loopback = record { name = codes "lo"; addr = some (10, replicate 15 0 ++ 1 ∷ []) }

abbrev packets : Ifaddr
packets = record { name = codes "lo"; addr = none }

abbrev if_list : List Ifaddr
if_list = packets ∷ loopback ∷ []

-- The newest descriptor is closed where it is the one given.
abbrev close : ℕ → List ℕ → List ℕ
close fd [] = []
close fd (d ∷ fds) = if d == fd then fds else d ∷ fds

close_lem : (fd : ℕ) (fds : List ℕ) → close fd (fd ∷ fds) ≡ fds
close_lem fd fds = rw ((==_iff fd fd).1 refl) refl

abbrev calls : Calls (List ℕ)
calls = record {
  socket = λ n. (some (suc (length n)), suc (length n) ∷ n);
  close = close;
  get_hwaddr = λ fd dev n. (some (replicate 6 2), n);
  get_addr = λ fd dev n. (some (replicate 4 127), n);
  getifaddrs = λ n. (some if_list, n);
  freeifaddrs = λ n. n;
}

some-injective : {A : Type 0} {a b : A} → some a ≡ some b → a ≡ b
some-injective e = cc

opened_lem :
    {d fd : ℕ} {fds fds' : List ℕ}
    → ◌≡◌ {A = Option ℕ × List ℕ} (some d, d ∷ fds) (some fd, fds')
    → fds' ≡ fd ∷ fds
opened_lem e = cc

system : IsSystem calls
system = record {
  opened = λ n. n;
  opens = λ n fd n' e. opened_lem e;
  refuses = λ n n' e. absurd (cc);
  closes = λ n fd m e. ap (close fd) e ∙ close_lem fd m;
  asks_hwaddr = λ n fd dev. refl;
  asks_addr = λ n fd dev. refl;
  hwaddr_bytes = λ n fd dev bytes e.
      subst (λ b. (6 ≤ length b) × IsBytes b) (some-injective e) (omega arith, omega arith);
  addr_bytes = λ n fd dev bytes e.
      subst (λ b. (4 ≤ length b) × IsBytes b) (some-injective e) (omega arith, omega arith);
}

setbydev_mac-Ends_example :
    Ends system.opened Mac.IsValid
      (4 ∷ 3 ∷ [])
      any_mac
      (setbydev_mac calls (codes "lo") (record { kernel = 4 ∷ 3 ∷ []; address = any_mac }))
setbydev_mac-Ends_example = setbydev_mac-Ends calls system (codes "lo") (4 ∷ 3 ∷ []) any_mac

abbrev asked : Run (Asking (List ℕ) Ipv6Address) (Unit {0})
asked = setbydev_ipv6 calls (codes "lo") (record { kernel = 4 ∷ 3 ∷ []; address = any_ipv6 })

sixteen :
    {bytes : List ℕ}
    → ◌≡◌ {A = Option (ℕ × List ℕ)} (some (10, replicate 15 0 ++ 1 ∷ [])) (some (10, bytes))
    → length bytes ≡ 16
sixteen {bytes} e =
    let same : replicate 15 0 ++ 1 ∷ [] ≡ bytes = cc in ap (λ (xs : List ℕ). length xs) (sym same)

setbydev_ipv6_cases_example :
    (HasNone (codes "lo") if_list
      × (asked
          ≡ throw "pgen::getipv6bydev: can't get address"
              (record { kernel = 4 ∷ 3 ∷ []; address = any_ipv6 })))
    ⊎ ((before : List Ifaddr) × (ifa : Ifaddr) × (after : List Ifaddr) × (bytes : List ℕ) × (if_list
          ≡ before ++ ifa ∷ after)
        × HasNone (codes "lo") before
        × IsInet6 (codes "lo") ifa bytes
        × (asked
            ≡ ok tt (record {
              kernel = 4 ∷ 3 ∷ [];
              address = record { raw = pairs bytes; name = sections_text (pairs bytes) };
            })))
setbydev_ipv6_cases_example =
    setbydev_ipv6_cases calls (codes "lo") (4 ∷ 3 ∷ []) (4 ∷ 3 ∷ []) any_ipv6 if_list (omega arith)
      (λ bytes i. cc i.1, (λ bytes i. sixteen i.1, tt)) refl

abbrev greeting : TmpHeader
greeting = record { id = 1; seq = 2; msglen = 5; msg = codes "hello" }

write_own_length_example :
    ((4 ≤ 5)
      × (write greeting 0 9 (replicate 9 0)
          ≡ throw "pgen::tmp_header::write: buflen is too small"
              (splice 0 (tmp_struct.put (to_struct greeting)) (replicate 9 0))))
    ⊎ ((5 < 4) × (write greeting 0 9 (replicate 9 0) ≡ fault))
unfolding length_of
write_own_length_example = write_own_length greeting (replicate 9 0) (omega arith) refl
