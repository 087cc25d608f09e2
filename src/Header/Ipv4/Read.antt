-- ===== src/Header/Ipv4/Read.antt =====
-- What `read` of an IPv4 header leaves, and the contract that the header keeps.
use libpgen.Base.{
  ℕ, ◌+◌, ◌-◌, ◌*◌, ◌≤◌, ◌≡◌, sym, ap, ap₂, subst, ◌∙◌, List, ◌++◌, arith, length, take, drop, ltb,
  ltb→ge, take-length, length-take_le, length-drop, All-take, All-drop, take-add, drop-drop,
  Bool-cases, inl, inr, leb, leb→le,
}
use libpgen.Base.Bytes.{IsByte, IsBytes, ntohs-lt, htons-ntohs}
use libpgen.Base.Run.{Run, ok, modify, >>=-eq-ok, throw_if, throw_if-eq-ok, ◌>>=◌, ◌>>◌}
use libpgen.Base.Splice.{splice, length-splice, All-splice, take-splice_self}
use libpgen.Header.Contract.{Contract}
use libpgen.Header.Ipv4.{
  Ip, ip, Ipv4Header, read, length_of, ops, to_struct, of_struct, option_length, read_option,
  store_option,
}
use libpgen.Ipv4Address
use libpgen.Ipv4Address.Laws
use libpgen.Layout.{fetch, cast, within-eq-ok}
use libpgen.Header.Ipv4.Valid.{
  IsValid, image, option_length_lem, hlen_of_option_length, length-image, image-IsBytes,
}
use libpgen.Header.Ipv4.Write.{write_image}

store_option_ok :
    (bytes : List ℕ) (g h' : Ipv4Header)
    → store_option bytes g ≡ ok tt h'
    → (length bytes ≤ length g.option) × (record g { option = splice 0 bytes g.option } ≡ h')
store_option_ok bytes g h' r = elim (Bool-cases (leb (length bytes) (length g.option))) [
  | inl e ↦ (leb→le (length bytes) (length g.option) e, inner (rw e at r))
  | inr e ↦ cc (rw e at r)
]
  where
    inner :
        ◌≡◌ {A = Run Ipv4Header (Unit {0})}
          (ok tt (record g { option = splice 0 bytes g.option }))
          (ok tt h')
        → record g { option = splice 0 bytes g.option } ≡ h'
    inner e = cc

-- What the second half of `read` needs and does, if it returns.
read_option_ok :
    (g h' : Ipv4Header) (buf : List ℕ) (at len : ℕ)
    → read_option buf at len g ≡ ok tt h'
    → (length_of g ≤ len)
      × (at + 20 + option_length g ≤ length buf)
      × (length (take (option_length g) (drop (at + 20) buf)) ≤ length g.option)
      × (record g { option = splice 0 (take (option_length g) (drop (at + 20) buf)) g.option } ≡ h')
read_option_ok g h' buf at len r =
    let n = option_length g in
    let bytes = take n (drop (at + 20) buf) in
    let (_, s, guard, r1) =
      >>=-eq-ok (throw_if (ltb len (length_of g)) _) (λ _. fetch buf (at + 20) n >>= store_option) g
        r in
    let (enough, same) = throw_if-eq-ok (ltb len (length_of g)) _ g guard in
    let (xs, s', fetched, stored) = >>=-eq-ok (fetch buf (at + 20) n) store_option s r1 in
    let (room, seen, kept) = within-eq-ok buf (at + 20) n bytes s fetched in
    let (fits, e) =
      store_option_ok bytes g h' (ap₂ (λ x t. store_option x t) seen (same ∙ kept) ∙ stored) in
    (ltb→ge len (length_of g) enough, room, fits, e)

-- The header that `read` leaves: the members of the struct, and `bytes` at the front of the options.
abbrev after_read : Ip → List ℕ → Ipv4Header → Ipv4Header
after_read p bytes h = record (of_struct p h) { option = splice 0 bytes h.option }

after_read-IsValid :
    (p : Ip) (bytes : List ℕ) (h : Ipv4Header)
    → ip.Fits p
    → 5 ≤ p.hlen
    → IsBytes bytes
    → IsValid h
    → IsValid (after_read p bytes h)
after_read-IsValid p bytes h ((hl, ver), (tos, (_, (_, (_, (ttl, (pr, (_, ((s, sb), (d, db))))))))))
      low bs v =
    record {
      version = ver;
      hlen_low = low;
      hlen_high = hl;
      tos = tos;
      tot_len = ntohs-lt p.tot_len;
      id = ntohs-lt p.id;
      frag_off = ntohs-lt p.frag_off;
      ttl = ttl;
      protocol = pr;
      check = ntohs-lt p.check;
      src = Laws.setbyarray-IsValid p.src h.src sb (omega arith);
      dst = Laws.setbyarray-IsValid p.dst h.dst db (omega arith);
      option_room = length-splice 0 bytes h.option ∙ v.option_room;
      option_bytes = All-splice IsByte 0 bytes h.option bs v.option_bytes;
    }

pub to_struct-of_struct : (p : Ip) (h : Ipv4Header) → ip.Fits p → to_struct (of_struct p h) ≡ p
unfolding Ipv4Address.copytoarray Ipv4Address.setbyarray
to_struct-of_struct p h (_, (_, (t, (id, (f, (_, (_, (c, ((s, _), (d, _)))))))))) = λ i. record {
  hlen = p.hlen;
  version = p.version;
  tos = p.tos;
  tot_len = htons-ntohs p.tot_len t i;
  id = htons-ntohs p.id id i;
  frag_off = htons-ntohs p.frag_off f i;
  ttl = p.ttl;
  protocol = p.protocol;
  check = htons-ntohs p.check c i;
  src = take-length p.src 4 (omega arith) i;
  dst = take-length p.dst 4 (omega arith) i;
}

-- Its bytes are those that were read.
image-after_read :
    (bs : List ℕ) (h : Ipv4Header) (n : ℕ)
    → IsBytes bs
    → n ≡ (ip.view bs).hlen * 4 - 20
    → 5 ≤ (ip.view bs).hlen
    → (ip.view bs).hlen * 4 ≤ length bs
    → n ≤ length h.option
    → image (after_read (ip.view bs) (take n (drop 20 bs)) h) ≡ take ((ip.view bs).hlen * 4) bs
unfolding image
image-after_read bs h n p e low room fits =
    let k = (ip.view bs).hlen * 4 in
    let bytes = take n (drop 20 bs) in
    let long : length bytes ≡ n =
      length-take_le n (drop 20 bs) (omega (arith, length-drop 20 bs, e, low)) in
    ap₂ ◌++◌
      (ap ip.put (to_struct-of_struct (ip.view bs) h (ip.view-Fits bs p (omega arith)))
        ∙ ip.put-view bs p (omega arith))
      (ap (λ (j : ℕ). take j (splice 0 bytes h.option)) (sym e)
        ∙ take-splice_self bytes h.option n long fits)
    ∙ sym (take-add 20 n bs)
    ∙ ap (λ (j : ℕ). take j bs) (omega (arith, e))

-- The first half of a `read` that returns.
read_parts :
    (h h' : Ipv4Header) (buf : List ℕ) (at len : ℕ)
    → read buf at len h ≡ ok tt h'
    → (at + 20 ≤ length buf)
      × (read_option buf at len (of_struct (ip.view (drop at buf)) h) ≡ ok tt h')
unfolding read length_of
read_parts h h' buf at len r =
    let rest = λ (p : Ip). modify (of_struct p) >> read_option buf at len in
    let (_, s, guard, r1) =
      >>=-eq-ok (throw_if (ltb len 20) _) (λ _. cast ip buf at >>= rest) h r in
    let (enough, same) = throw_if-eq-ok (ltb len 20) _ h guard in
    let (p, s', cast_p, r2) = >>=-eq-ok (cast ip buf at) rest s r1 in
    let (room, seen, kept) = within-eq-ok buf at 20 (ip.view (drop at buf)) s cast_p in
    (room, ap₂ (λ q t. read_option buf at len (of_struct q t)) seen (same ∙ kept) ∙ r2)

pub read_image :
    (h h' : Ipv4Header) (buf : List ℕ) (at len : ℕ)
    → IsBytes buf
    → IsValid h
    → read buf at len h ≡ ok tt h'
    → IsValid h'
      × (length_of h' ≤ len)
      × (at + length_of h' ≤ length buf)
      × (Unit {0} → image h' ≡ take (length_of h') (drop at buf))
unfolding length_of
read_image h h' buf at len bs v r =
    let (room, r') = read_parts h h' buf at len r in
    let front = drop at buf in
    let ds : IsBytes front = All-drop IsByte at buf bs in
    let fits = ip.view-Fits front ds (omega (arith, length-drop at buf)) in
    let g = of_struct (ip.view front) h in
    let n = option_length g in
    let (l, m, o, e) = read_option_ok g h' buf at len r' in
    let bytes = take n (drop (at + 20) buf) in
    let long : length bytes ≡ n =
      length-take_le n (drop (at + 20) buf) (omega (arith, length-drop (at + 20) buf, m)) in
    let low : 5 ≤ (ip.view front).hlen =
      hlen_of_option_length g fits.0.0 (omega (arith, long, o, v.option_room)) in
    let (en, small) = option_length_lem g low fits.0.0 in
    let same : bytes ≡ take n (drop 20 front) = ap (take n) (sym (drop-drop at 20 buf)) in
    subst
      (λ x.
        IsValid x
        × (x.hlen * 4 ≤ len)
        × (at + x.hlen * 4 ≤ length buf)
        × (Unit {0} → image x ≡ take (x.hlen * 4) front))
      e
      (
        after_read-IsValid (ip.view front) bytes h fits low
            (All-take IsByte n _ (All-drop IsByte (at + 20) buf bs)) v,
        l,
        omega (arith, m, en, low),
        λ _.
            ap (λ xs. image (after_read (ip.view front) xs h)) same
            ∙ image-after_read front h n ds en low (omega (arith, length-drop at buf, m, en, low))
                (omega (arith, en, small, v.option_room)),
      )

-- The contract of `header`; every bit has a member.
pub contract : Contract ops IsValid image (λ _. Unit)
unfolding ops
contract = record {
  length-image = length-image;
  image-IsBytes = image-IsBytes;
  write_image = write_image;
  read_image = read_image;
}
