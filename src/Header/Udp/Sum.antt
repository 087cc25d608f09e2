-- ===== src/Header/Udp/Sum.antt =====
-- pgen/core/protocol/udp.h: `udp_header::calc_checksum`, and what it sums up.
use libpgen.Base.{
  ℕ, ◌+◌, ◌*◌, ◌/◌, ◌%◌, ◌<◌, ◌==◌, ==_iff, not, refl, [], ◌≡◌, ap, ap₂, sym, ◌∙◌, List, ◌∷◌, ◌++◌,
  arith, length, replicate, length-append, length-replicate,
}
use libpgen.Base.Bytes.{htons, ntohs, sub_size, sub_size_le, to_u16}
use libpgen.Base.Run.{Run, ok, get, throw_if, >>=-ok, ◌>>=◌, ◌>>◌}
use libpgen.Base.Splice.{splice, splice-all, splice-next, length-splice}
use libpgen.Header.Ipv4 as Ipv4
use libpgen.Header.Ipv4.{Ipv4Header}
use libpgen.Header.Ipv4.Valid as Ipv4Valid
use libpgen.Header.Udp.{UdpHeader, write, length_of, ops}
use libpgen.Header.Udp.Laws.{IsValid, image, contract}
use libpgen.Ipv4Address
use libpgen.Layout.{Memory, store, u16, store_within}
use libpgen.Util.{checksum}

-- `struct pseudo_header`, as it is filled.
abbrev pub pseudo_header : Ipv4Header → List ℕ
pseudo_header iph =
    Ipv4Address.copytoarray iph.src
    ++ (Ipv4Address.copytoarray iph.dst
        ++ (0
            ∷ iph.protocol
            ∷ u16.put (htons (to_u16 (sub_size iph.tot_len (Ipv4.length_of iph))))))

-- The buffer is an array of zeros; `sum` is what `checksum` starts from.
unfoldable pub calc_checksum : ℕ → Ipv4Header → List ℕ → UdpHeader → Run Memory ℕ
calc_checksum sum iph payload h =
    let size = 12 + length_of h + length payload in
    (do
      store (pseudo_header iph) 0
      write h 12 (length_of h + length payload)
      store payload (12 + length_of h)
      throw_if (not (size == 12 + length_of h + length payload))
          "pgen::udp_header::calc_checksum: error"
      bytes ← get
      λ mem. ok (ntohs (checksum sum bytes)) mem)
      (replicate size 0)

length-pseudo_header : (iph : Ipv4Header) → Ipv4Valid.IsValid iph → length (pseudo_header iph) ≡ 12
unfolding Ipv4Address.copytoarray
length-pseudo_header iph v =
    let tail : List ℕ =
      0 ∷ iph.protocol ∷ u16.put (htons (to_u16 (sub_size iph.tot_len (Ipv4.length_of iph)))) in
    length-append iph.src.raw (iph.dst.raw ++ tail)
    ∙ ap₂ (λ (j k : ℕ). j + k) v.src.octets (length-append iph.dst.raw tail)
    ∙ ap (λ (k : ℕ). 4 + (k + 4)) v.dst.octets

-- The pseudo header of RFC 768, byte by byte, of an IPv4 header that says that `n` bytes follow it.
pseudo_header_lem :
    (iph : Ipv4Header) (n : ℕ)
    → Ipv4Valid.IsValid iph
    → iph.tot_len ≡ iph.hlen * 4 + n
    → pseudo_header iph ≡ iph.src.raw ++ (iph.dst.raw ++ 0 ∷ iph.protocol ∷ n / 256 ∷ n % 256 ∷ [])
unfolding Ipv4Address.copytoarray Ipv4.length_of htons
pseudo_header_lem iph n v e =
    let less : to_u16 (sub_size iph.tot_len (iph.hlen * 4)) ≡ n =
      ap to_u16
        (sub_size_le iph.tot_len (iph.hlen * 4) (omega (arith, v.tot_len)) (omega (arith, e)))
      ∙ omega (arith, e, v.tot_len) in
    let small : n < 65536 = omega (arith, e, v.tot_len) in
    ap (λ (k : ℕ). iph.src.raw ++ (iph.dst.raw ++ 0 ∷ iph.protocol ∷ u16.put (htons k))) less
    ∙ ap₂ (λ (j k : ℕ). iph.src.raw ++ (iph.dst.raw ++ 0 ∷ iph.protocol ∷ j ∷ k ∷ []))
        (omega (arith, small)) (omega (arith, small))

-- The buffer that is summed up, with the pseudo header as the code fills it.
sums :
    (sum : ℕ) (iph : Ipv4Header) (payload : List ℕ) (h : UdpHeader)
    → IsValid h
    → Ipv4Valid.IsValid iph
    → let bytes = (pseudo_header iph ++ image h) ++ payload in
      calc_checksum sum iph payload h ≡ ok (ntohs (checksum sum bytes)) bytes
unfolding calc_checksum length_of ops Ipv4Address.copytoarray
sums sum iph payload h v vi =
    let ps = pseudo_header iph in
    let n = length payload in
    let zeros : List ℕ = replicate (12 + 8 + n) 0 in
    let room : length zeros ≡ 20 + n = length-replicate {0} {A = ℕ} (12 + 8 + n) 0 in
    let long : length ps ≡ 12 = length-pseudo_header iph vi in
    let head : length (image h) ≡ 8 = contract.length-image h v in
    let both : length (ps ++ image h) ≡ 20 =
      length-append ps (image h) ∙ omega (arith, long, head) in
    let total = length-append (ps ++ image h) payload in
    let m1 = splice 0 ps zeros in
    let m2 = splice 0 (ps ++ image h) zeros in
    let result = λ (bytes : List ℕ). ok (ntohs (checksum sum bytes)) bytes in
    >>=-ok (store ps 0) _ zeros (store_within ps 0 zeros (omega (arith, long, room)))
    ∙ >>=-ok (write h 12 (8 + n)) _ m1 (
        contract.write_image h 12 (8 + n) m1 v (omega arith)
          (omega (arith, room, length-splice 0 ps zeros))
        ∙ ap (λ (k : ℕ). ok tt (splice k (image h) m1)) (sym long)
        ∙ ap (ok tt) (splice-next ps (image h) zeros))
    ∙ >>=-ok (store payload 20) _ m2 (
        store_within payload 20 m2 (omega (arith, room, length-splice 0 (ps ++ image h) zeros))
        ∙ ap (λ (k : ℕ). ok tt (splice k payload m2)) (sym both)
        ∙ ap (ok tt) (splice-next (ps ++ image h) payload zeros))
    ∙ rw ((==_iff (20 + n) (20 + n)).1 refl) (
        ap result
          (splice-all ((ps ++ image h) ++ payload) zeros (omega (arith, total, both, room))))

-- Of a valid header, and a valid IPv4 header that says that `n` bytes follow it, `calc_checksum`
-- returns, and its result is the checksum of these bytes: both IPv4 addresses, a zero, the protocol,
-- the two bytes of `n` with the high one first, the header, and the payload. It goes on from the `sum`
-- that `checksum` found.
pub calc_checksum-payload :
    (sum n : ℕ) (iph : Ipv4Header) (payload : List ℕ) (h : UdpHeader)
    → IsValid h
    → Ipv4Valid.IsValid iph
    → iph.tot_len ≡ iph.hlen * 4 + n
    → let pseudo = iph.src.raw ++ (iph.dst.raw ++ 0 ∷ iph.protocol ∷ n / 256 ∷ n % 256 ∷ []) in
      let bytes = (pseudo ++ image h) ++ payload in
      calc_checksum sum iph payload h ≡ ok (ntohs (checksum sum bytes)) bytes
calc_checksum-payload sum n iph payload h v vi e =
    sums sum iph payload h v vi
    ∙ ap
        (λ (ps : List ℕ).
          ok (ntohs (checksum sum ((ps ++ image h) ++ payload))) ((ps ++ image h) ++ payload))
        (pseudo_header_lem iph n vi e)
