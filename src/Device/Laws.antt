-- ===== src/Device/Laws.antt =====
-- What the address and the system are like after `setbydev`, however it ends.
use libpgen.Base.{
  String, ℕ, ◌≤◌, ◌≡◌, inl, inr, refl, ap, ◌∙◌, List, ◌∷◌, Option, Option-cases, none, some, length,
  take, leb, Bool-cases, length-take_le, All-take,
}
use libpgen.Base.Bytes.{IsByte, IsBytes}
use libpgen.Base.Run.{Run, ok, throw, fault, throw_if, ◌>>=◌}
use libpgen.Base.Text.{Text}
use libpgen.Ipv4Address
use libpgen.Ipv4Address.{Ipv4Address}
use libpgen.Ipv4Address.Laws as Ipv4
use libpgen.MacAddress
use libpgen.MacAddress.{MacAddress, same_bytes}
use libpgen.MacAddress.Laws as Mac
use libpgen.MacAddress.Laws.{same_bytes_iff}
use libpgen.Device.{
  Calls, Asking, name_size, by_ioctl, asked, getmacbydev, getipv4bydev, setbydev_mac, setbydev_ipv4,
}

-- A system that knows the descriptors that are open, the newest first, and whose `ioctl` of either kind
-- brings enough bytes. `socket` opens the descriptor that it returns, and `close` of the newest one
-- closes that one.
pub record IsSystem {Kernel : Type 0} (calls : Calls Kernel) : Type 0 where
  pub opened : Kernel → List ℕ
  pub opens :
      (k : Kernel) (fd : ℕ) (k' : Kernel)
      → calls.socket k ≡ (some fd, k')
      → opened k' ≡ fd ∷ opened k
  pub refuses : (k k' : Kernel) → calls.socket k ≡ (none, k') → opened k' ≡ opened k
  pub closes :
      (k : Kernel) (fd : ℕ) (fds : List ℕ) → opened k ≡ fd ∷ fds → opened (calls.close fd k) ≡ fds
  pub asks_hwaddr :
      (k : Kernel) (fd : ℕ) (dev : Text) → opened (calls.get_hwaddr fd dev k).1 ≡ opened k
  pub asks_addr : (k : Kernel) (fd : ℕ) (dev : Text) → opened (calls.get_addr fd dev k).1 ≡ opened k
  pub hwaddr_bytes :
      (k : Kernel) (fd : ℕ) (dev : Text) (bytes : List ℕ)
      → (calls.get_hwaddr fd dev k).0 ≡ some bytes
      → (6 ≤ length bytes) × IsBytes bytes
  pub addr_bytes :
      (k : Kernel) (fd : ℕ) (dev : Text) (bytes : List ℕ)
      → (calls.get_addr fd dev k).0 ≡ some bytes
      → (4 ≤ length bytes) × IsBytes bytes

-- A call that ended, with an address that has the property where it returned and that is the old one
-- where it threw, and with the same descriptors open as before.
abbrev pub Ends :
    {Kernel Address : Type 0}
    → (Kernel → List ℕ)
    → (Address → Type 0)
    → Kernel
    → Address
    → Run (Asking Kernel Address) (Unit {0})
    → Type 0
Ends opened P k a (ok _ s) = P s.address × (opened s.kernel ≡ opened k)
Ends opened P k a (throw e s) = (s.address ≡ a) × (opened s.kernel ≡ opened k)
Ends opened P k a fault = ⊥

module _ {Kernel Address : Type 0} (calls : Calls Kernel) (system : IsSystem calls) where
  by_ioctl-Ends :
      (P : Address → Type 0) (n : ℕ) (e1 e2 e3 : String)
      (request : ℕ → Text → Kernel → Option (List ℕ) × Kernel) (set : List ℕ → Address → Address)
      (dev : Text) (k : Kernel) (a : Address)
      → ((k : Kernel) (fd : ℕ) → system.opened (request fd dev k).1 ≡ system.opened k)
      → ((k : Kernel) (fd : ℕ) (bytes : List ℕ)
          → (request fd dev k).0 ≡ some bytes
          → (n ≤ length bytes) × IsBytes bytes)
      → ((raw : List ℕ) → length raw ≡ n → IsBytes raw → P (set raw a))
      → Ends system.opened P k a (
          asked calls
            (by_ioctl calls n e1 e2 e3 request dev)
            set
            (record { kernel = k; address = a }))
  by_ioctl-Ends P n e1 e2 e3 request set dev k a keeps brings valid =
      let k1 = (calls.socket k).1 in
      elim (Bool-cases (leb name_size (length dev))) [
        | inl long ↦ rw long (refl, refl)
        | inr short ↦ elim (Option-cases (calls.socket k).0) [
          | inl e ↦ rw (short, ◌>>=◌, throw_if, e) (refl, system.refuses k k1 (ap (λ o. (o, k1)) e))
          | inr (fd, e) ↦
              let k2 = (request fd dev k1).1 in
              let closed =
                system.closes k2 fd (system.opened k)
                  (keeps k1 fd ∙ system.opens k fd k1 (ap (λ o. (o, k1)) e)) in
              elim (Option-cases (request fd dev k1).0) [
                | inl r ↦ rw (short, ◌>>=◌, throw_if, e, r) (refl, closed)
                | inr (bytes, r) ↦
                    let (enough, all) = brings k1 fd bytes r in
                    rw (short, ◌>>=◌, throw_if, e, r)
                      (
                        valid (take n bytes) (length-take_le n bytes enough)
                            (All-take IsByte n bytes all),
                        closed,
                      )
              ]
        ]
      ]

module _ {Kernel : Type 0} (calls : Calls Kernel) (system : IsSystem calls) where
  -- `macaddress::setbydev` either leaves an address of six octets whose text is that of the octets, or
  -- throws and leaves the address as it was. It never reads outside its bytes, and either way the
  -- descriptors that are open are those that were open before: the one that it opened is closed, and no
  -- other. The system is an `IsSystem`.
  pub setbydev_mac-Ends :
      (ifname : Text) (k : Kernel) (m : MacAddress)
      → Ends system.opened Mac.IsValid k m
          (setbydev_mac calls ifname (record { kernel = k; address = m }))
  unfolding setbydev_mac getmacbydev
  setbydev_mac-Ends ifname k m =
      by_ioctl-Ends calls system Mac.IsValid 6 _ _ _ calls.get_hwaddr
        (λ raw m. MacAddress.update_name (record m { raw = raw })) ifname k m
        (λ k fd. system.asks_hwaddr k fd ifname) (λ k fd. system.hwaddr_bytes k fd ifname)
        (λ raw l all. record { octets = l; bytes = all; named = refl })

  -- The same of `ipv4address::setbydev`, and four octets.
  pub setbydev_ipv4-Ends :
      (ifname : Text) (k : Kernel) (a : Ipv4Address)
      → Ends system.opened Ipv4.IsValid k a
          (setbydev_ipv4 calls ifname (record { kernel = k; address = a }))
  unfolding setbydev_ipv4 getipv4bydev
  setbydev_ipv4-Ends ifname k a =
      by_ioctl-Ends calls system Ipv4.IsValid 4 _ _ _ calls.get_addr
        (λ raw a. Ipv4Address.update_name (record a { raw = raw })) ifname k a
        (λ k fd. system.asks_addr k fd ifname) (λ k fd. system.addr_bytes k fd ifname)
        (λ raw l all. record { octets = l; bytes = all; named = refl })
