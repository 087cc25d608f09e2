-- ===== src/Device/Inet6.antt =====
-- `ipv6address::setbydev`: which entry of the list of interfaces it takes.
use libpgen.Base.{
  ℕ, zero, suc, subst, arith, ◌+◌, ◌*◌, sym, ◌==◌, ==_iff, ◌<◌, ◌≡◌, ◌⊎◌, inl, inr, refl, ap, ◌∙◌,
  List, [], ◌∷◌, ◌++◌, Option, Option-cases, none, some, length, gt→leb, All, Bool-cases,
}
use libpgen.Base.Run.{ok, throw}
use libpgen.Base.Text.{Text}
use libpgen.Ipv6Address.{Ipv6Address, sections_text}
use libpgen.MacAddress.{same_bytes}
use libpgen.MacAddress.Laws.{same_bytes_iff}
use libpgen.Device.{
  Calls, Ifaddr, name_size, address_in, find_address, words_of, getipv6bydev, setbydev_ipv6,
}

-- An entry of the list has the name, an address, and the family AF_INET6; `bytes` are its address.
abbrev pub IsInet6 : Text → Ifaddr → List ℕ → Type 0
IsInet6 dev ifa bytes = (ifa.name ≡ dev) × (ifa.addr ≡ some (10, bytes))

inet6-injective :
    {family : ℕ} {bytes bytes' : List ℕ}
    → ◌≡◌ {A = Option (ℕ × List ℕ)} (some (family, bytes)) (some (10, bytes'))
    → family ≡ 10
inet6-injective e = cc

address_in_cases :
    (dev : Text) (ifa : Ifaddr)
    → (((bytes : List ℕ) → ¬ IsInet6 dev ifa bytes) × (address_in dev ifa ≡ none))
      ⊎ ((bytes : List ℕ) × IsInet6 dev ifa bytes × (address_in dev ifa ≡ some (words_of 8 bytes)))
unfolding address_in
address_in_cases dev ifa = elim (Option-cases ifa.addr) [
  | inl e ↦ inl (λ bytes h. cc (e, h.1), rw e refl)
  | inr ((family, bytes), e) ↦ elim (Bool-cases (same_bytes ifa.name dev)) [
    | inr other ↦
        inl (λ bytes' h. cc (other, (same_bytes_iff ifa.name dev).1 h.0), rw (e, other) refl)
    | inl same ↦ elim (Bool-cases (family == 10)) [
      | inr other ↦ inl (
        λ bytes' h. cc (other, (==_iff family 10).1 (inet6-injective (sym e ∙ h.1))),
        rw (e, same, other) refl,
      )
      | inl six ↦ inr (
        bytes,
        (
          (same_bytes_iff ifa.name dev).0 same,
          e ∙ ap (λ (k : ℕ). some (k, bytes)) ((==_iff family 10).0 six),
        ),
        rw (e, same, six) refl,
      )
    ]
  ]
]

-- No entry of the list is one.
abbrev pub HasNone : Text → List Ifaddr → Type 0
HasNone dev ifas = All (λ ifa. (bytes : List ℕ) → ¬ IsInet6 dev ifa bytes) ifas

find_address_cases :
    (dev : Text) (ifas : List Ifaddr)
    → (HasNone dev ifas × (find_address dev ifas ≡ none))
      ⊎ ((before : List Ifaddr) × (ifa : Ifaddr) × (after : List Ifaddr) × (bytes : List ℕ) × (ifas
            ≡ before ++ ifa ∷ after)
          × HasNone dev before
          × IsInet6 dev ifa bytes
          × (find_address dev ifas ≡ some (words_of 8 bytes)))
unfolding find_address
find_address_cases dev [] = inl (tt, refl)
find_address_cases dev (ifa ∷ ifas) = elim (address_in_cases dev ifa) [
  | inr (bytes, is, e) ↦ inr ([], ifa, ifas, bytes, refl, tt, is, rw (find_address, e) refl)
  | inl (not, e) ↦ elim (find_address_cases dev ifas) [
    | inl (all, f) ↦ inl ((not, all), rw (find_address, e, f) refl)
    | inr (before, found, after, bytes, split, all, is, f) ↦ inr (
      ifa ∷ before,
      found,
      after,
      bytes,
      ap (λ t. ifa ∷ t) split,
      (not, all),
      is,
      rw (find_address, e, f) refl,
    )
  ]
]

-- Numbers of two bytes each, the low byte first.
abbrev pub pairs : List ℕ → List ℕ
pairs (low ∷ high ∷ bytes) = (low + 256 * high) ∷ pairs bytes
pairs _ = []

words_of-pairs : (n : ℕ) (bytes : List ℕ) → length bytes ≡ 2 * n → words_of n bytes ≡ pairs bytes
words_of-pairs zero [] h = refl
words_of-pairs zero (b ∷ bs) h = absurd (omega (arith, h))
words_of-pairs (suc n) [] h = absurd (omega (arith, h))
words_of-pairs (suc n) (b ∷ []) h = absurd (omega (arith, h))
words_of-pairs (suc n) (b ∷ c ∷ bs) h =
    ap (λ ws. (b + 256 * c) ∷ ws) (words_of-pairs n bs (omega (arith, h)))

All-at :
    {A : Type 0} (P : A → Type 0) (before : List A) (x : A) (after : List A)
    → All P (before ++ x ∷ after)
    → P x
All-at P [] x after (p, ps) = p
All-at P (y ∷ before) x after (p, ps) = All-at P before x after ps

module _ {Kernel : Type 0} (calls : Calls Kernel) where
  -- `ipv6address::setbydev` of a name shorter than 16, with the list that `getifaddrs` gives, in which
  -- every address of the family AF_INET6 has 16 bytes. Either no entry of the list has the name, an
  -- address and that family (which is 10): then the address stays and an exception is thrown. Or the
  -- sections become the bytes of the first such entry, two by two with the low byte first, and the
  -- text follows. The list is given back either way.
  pub setbydev_ipv6_cases :
      (ifname : Text) (k k' : Kernel) (a : Ipv6Address) (if_list : List Ifaddr)
      → length ifname < 16
      → All (λ ifa. (bytes : List ℕ) → IsInet6 ifname ifa bytes → length bytes ≡ 16) if_list
      → calls.getifaddrs k ≡ (some if_list, k')
      → let run = setbydev_ipv6 calls ifname (record { kernel = k; address = a }) in
        (HasNone ifname if_list
          × (run
              ≡ throw "pgen::getipv6bydev: can't get address"
                  (record { kernel = calls.freeifaddrs k'; address = a })))
        ⊎ ((before : List Ifaddr) × (ifa : Ifaddr) × (after : List Ifaddr) × (bytes : List ℕ)
            × (if_list ≡ before ++ ifa ∷ after)
            × HasNone ifname before
            × IsInet6 ifname ifa bytes
            × (run
                ≡ ok tt (record {
                  kernel = calls.freeifaddrs k';
                  address = record { raw = pairs bytes; name = sections_text (pairs bytes) };
                })))
  unfolding setbydev_ipv6 getipv6bydev
  setbydev_ipv6_cases ifname k k' a if_list h long e =
      let fits = gt→leb name_size (length ifname) h in
      elim (find_address_cases ifname if_list) [
        | inl (all, f) ↦ inl (all, rw (fits, e, f) refl)
        | inr (before, ifa, after, bytes, split, all, is, f) ↦
            let sixteen : length bytes ≡ 16 =
              All-at (λ ifa. (bs : List ℕ) → IsInet6 ifname ifa bs → length bs ≡ 16) before ifa
                after
                (subst
                  (λ xs. All (λ ifa. (bs : List ℕ) → IsInet6 ifname ifa bs → length bs ≡ 16) xs)
                  split long)
                bytes is in
            let words = words_of-pairs 8 bytes (omega (arith, sixteen)) in
            inr (
              before,
              ifa,
              after,
              bytes,
              split,
              all,
              is,
              rw (fits, e, f) refl
                  ∙ ap
                      (λ ws. ok tt (record {
                        kernel = calls.freeifaddrs k';
                        address = record { raw = ws; name = sections_text ws };
                      }))
                      words,
            )
      ]
