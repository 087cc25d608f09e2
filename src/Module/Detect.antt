-- ===== src/Module/Detect.antt =====
-- pgen/module.h: `detect_ethernet` and the functions that ask what an Ethernet frame carries. The
-- constants of the namespaces `ethernet::type` and `ipv4::protocol`, which no file of the repository
-- declares, are parameters.
use libpgen.Base.{
  ℕ, ◌+◌, ◌≡◌, ◌≢◌, ◌⊎◌, inl, inr, sym, ap, arith, ◌∙◌, List, Bool, true, false, Option, some, none,
  ◌==◌, ==_iff, Bool-cases,
}
use libpgen.Base.Bytes.{sub_size}
use libpgen.Base.Run.{Exec, ok, pure, get, member, ◌>>=◌, ◌>>◌, >>=-eq-ok}
use libpgen.Header.Arp
use libpgen.Header.Arp.{ArpHeader}
use libpgen.Header.Ethernet
use libpgen.Header.Ethernet.{EthernetHeader}
use libpgen.Header.Ipv4
use libpgen.Header.Ipv4.{Ipv4Header}
use libpgen.Header.Ipv6
use libpgen.Header.Ipv6.{Ipv6Header}

pub record Constants : Type 0 where
  pub arp : ℕ
  pub ip : ℕ
  pub ipv6 : ℕ
  pub icmp : ℕ

-- The headers that are local variables. They hold any values at first.
pub record Locals : Type 0 where
  pub eth : EthernetHeader
  pub arp : ArpHeader
  pub ipv4 : Ipv4Header
  pub ipv6 : Ipv6Header

-- It always returns true: here it gives what it puts into `*hdrlen` and `*type`.
unfoldable pub detect_ethernet : List ℕ → ℕ → ℕ → Exec Locals (ℕ × ℕ)
detect_ethernet buf at bufferlen = do
  member (λ s. s.eth) (λ h s. record s { eth = h }) (Ethernet.read buf at bufferlen)
  s ← get
  pure (Ethernet.length_of s.eth, s.eth.type)

-- What the three functions below share: where the frame's type is the constant, `inner` goes on behind
-- the Ethernet header. They give none where they return false, and else what they put into `*hdrlen`
-- and `*proto`.
abbrev when_type :
    {A : Type 0} → ℕ → (ℕ → ℕ → ℕ → Exec Locals A) → List ℕ → ℕ → ℕ → Exec Locals (Option A)
when_type constant inner buf at bufferlen = detect_ethernet buf at bufferlen >>= λ r.
    elim (r.1 == constant) [
      | true ↦ inner r.0 (at + r.0) (sub_size bufferlen r.0) >>= λ a. pure (some a)
      | false ↦ pure none
    ]

-- What each of the three does behind the Ethernet header, whose length is `eth_hlen`.
abbrev behind_arp : List ℕ → ℕ → ℕ → ℕ → Exec Locals ℕ
behind_arp buf eth_hlen at bufferlen = do
  member (λ s. s.arp) (λ h s. record s { arp = h }) (Arp.read buf at bufferlen)
  s ← get
  pure (eth_hlen + Arp.length_of s.arp)

abbrev behind_ipv4 : List ℕ → ℕ → ℕ → ℕ → Exec Locals (ℕ × ℕ)
behind_ipv4 buf eth_hlen at bufferlen = do
  member (λ s. s.ipv4) (λ h s. record s { ipv4 = h }) (Ipv4.read buf at bufferlen)
  s ← get
  pure (eth_hlen + Ipv4.length_of s.ipv4, s.ipv4.protocol)

abbrev behind_ipv6 : List ℕ → ℕ → ℕ → ℕ → Exec Locals (ℕ × ℕ)
behind_ipv6 buf eth_hlen at bufferlen = do
  member (λ s. s.ipv6) (λ h s. record s { ipv6 = h }) (Ipv6.read buf at bufferlen)
  s ← get
  pure (eth_hlen + Ipv6.length_of s.ipv6, s.ipv6.next_header)

module _ (constants : Constants) where
  unfoldable pub detect_arp : List ℕ → ℕ → ℕ → Exec Locals (Option ℕ)
  detect_arp buf = when_type constants.arp (behind_arp buf) buf

  unfoldable pub detect_ipv4 : List ℕ → ℕ → ℕ → Exec Locals (Option (ℕ × ℕ))
  detect_ipv4 buf = when_type constants.ip (behind_ipv4 buf) buf

  unfoldable pub detect_ipv6 : List ℕ → ℕ → ℕ → Exec Locals (Option (ℕ × ℕ))
  detect_ipv6 buf = when_type constants.ipv6 (behind_ipv6 buf) buf

  unfoldable pub detect_icmpv4 : List ℕ → ℕ → ℕ → Exec Locals Bool
  unfolding detect_ipv4
  detect_icmpv4 buf at bufferlen = detect_ipv4 buf at bufferlen >>= λ found. elim found [
    | none ↦ pure false
    | some f ↦ pure (f.1 == constants.icmp)
  ]

-- A function that returned has read the Ethernet header, and found nothing if the frame's type is
-- not its constant.
when_type_outcome :
    {A : Type 0} (constant : ℕ) (inner : ℕ → ℕ → ℕ → Exec Locals A) (buf : List ℕ) (at len : ℕ)
    (s s' : Locals) (a : Option A)
    → when_type constant inner buf at len s ≡ ok a s'
    → (r : ℕ × ℕ) × (s'' : Locals) × (detect_ethernet buf at len s ≡ ok r s'')
      × ((r.1 ≡ constant) ⊎ (a ≡ none))
when_type_outcome constant inner buf at len s s' a e =
    let (r, s'', d, rest) = >>=-eq-ok (detect_ethernet buf at len) _ s e in
    (
      r,
      s'',
      d,
      elim (Bool-cases (r.1 == constant)) [
        | inl same ↦ inl ((==_iff r.1 constant).0 same)
        | inr other ↦ let left = rw other at rest in inr cc
      ],
    )

same_type :
    (buf : List ℕ) (at len : ℕ) (s s' s'' : Locals) (r q : ℕ × ℕ)
    → detect_ethernet buf at len s ≡ ok r s'
    → detect_ethernet buf at len s ≡ ok q s''
    → r.1 ≡ q.1
same_type buf at len s s' s'' r q d e = let f : r ≡ q = cc (sym d ∙ e) in ap (λ t. t.1) f

-- Two of the functions that look for different constants do not both find what they look for.
differ :
    {A B : Type 0} (c c' : ℕ) (inner : ℕ → ℕ → ℕ → Exec Locals A)
    (inner' : ℕ → ℕ → ℕ → Exec Locals B) (buf : List ℕ) (at len : ℕ) (s s' s'' : Locals)
    (a : Option A) (b : Option B)
    → c ≢ c'
    → when_type c inner buf at len s ≡ ok a s'
    → when_type c' inner' buf at len s ≡ ok b s''
    → (a ≡ none) ⊎ (b ≡ none)
differ c c' inner inner' buf at len s s' s'' a b h e f =
    let (r, t, d, x) = when_type_outcome c inner buf at len s s' a e in
    let (q, u, g, y) = when_type_outcome c' inner' buf at len s s'' b f in
    elim x [
      | inr p ↦ inl p
      | inl p ↦ elim y [
        | inr k ↦ inr k
        | inl k ↦ absurd (h (sym p ∙ same_type buf at len s t u r q d g ∙ k))
      ]
    ]

module _ (constants : Constants) where
  -- A frame on which `detect_arp`, `detect_ipv4` and `detect_ipv6` return is found to be of at most one
  -- of the three kinds, if the three constants differ.
  pub detect_exclusive :
      (buf : List ℕ) (at len : ℕ) (s s1 s2 s3 : Locals) (a : Option ℕ) (b c : Option (ℕ × ℕ))
      → constants.arp ≢ constants.ip
      → constants.arp ≢ constants.ipv6
      → constants.ip ≢ constants.ipv6
      → detect_arp constants buf at len s ≡ ok a s1
      → detect_ipv4 constants buf at len s ≡ ok b s2
      → detect_ipv6 constants buf at len s ≡ ok c s3
      → ((a ≡ none) × (b ≡ none)) ⊎ ((a ≡ none) × (c ≡ none)) ⊎ ((b ≡ none) × (c ≡ none))
  unfolding detect_arp detect_ipv4 detect_ipv6
  detect_exclusive buf at len s s1 s2 s3 a b c h1 h2 h3 e1 e2 e3 =
      let ab =
        differ constants.arp constants.ip (behind_arp buf) (behind_ipv4 buf) buf at len s s1 s2 a b
          h1 e1 e2 in
      let ac =
        differ constants.arp constants.ipv6 (behind_arp buf) (behind_ipv6 buf) buf at len s s1 s3 a
          c h2 e1 e3 in
      let bc =
        differ constants.ip constants.ipv6 (behind_ipv4 buf) (behind_ipv6 buf) buf at len s s2 s3 b
          c h3 e2 e3 in
      ground arith
