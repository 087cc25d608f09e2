-- ===== src/Header/Ipv4/Laws.antt =====
-- IPv4 headers: the round trip, the literals of `clear`, and a header length that `read` does not check.
use libpgen.Base.{
  ℕ, ◌+◌, ◌-◌, ◌*◌, ◌≤◌, ◌<◌, ◌≡◌, refl, sym, ap, ◌∙◌, List, ◌++◌, arith, length, take, drop, ltb,
  ge→ltb, length-take_le, length-take, append_assoc, drop-append, take-append, ◌^◌, some, replicate,
  length-append, drop-drop, le→leb,
}
use libpgen.Base.Bytes.{sub_size, ntohs-htons}
use libpgen.Base.Run.{ok, fault, modify, Exec, member, >>=-fault, >>=-ok, throw_if, ◌>>=◌, ◌>>◌}
use libpgen.Base.Splice.{splice, length-splice, drop-splice}
use libpgen.Header.Ipv4.{
  Ip, ip, Ipv4Header, write, read, length_of, clear, to_struct, of_struct, option_length,
  read_option, store_option, on_src, on_dst,
}
use libpgen.Base.Text.{codes}
use libpgen.Ipv4Address
use libpgen.Ipv4Address.{Ipv4Address, Pton}
use libpgen.Ipv4Address.Laws
use libpgen.Layout.{Memory, fetch, cast, within_bounds, within_fault}
use libpgen.Header.Ipv4.Valid.{IsValid, image, to_struct-Fits, option_length_lem}
use libpgen.Header.Ipv4.Write.{write_image, length-put_struct}

of_struct-to_struct :
    (h h0 : Ipv4Header) → IsValid h → of_struct (to_struct h) h0 ≡ record h { option = h0.option }
of_struct-to_struct h h0 v = λ i. record {
  version = h.version;
  hlen = h.hlen;
  tos = h.tos;
  tot_len = ntohs-htons h.tot_len v.tot_len i;
  id = ntohs-htons h.id v.id i;
  frag_off = ntohs-htons h.frag_off v.frag_off i;
  ttl = h.ttl;
  protocol = h.protocol;
  check = ntohs-htons h.check v.check i;
  src = Laws.setbyarray-copytoarray h0.src v.src i;
  dst = Laws.setbyarray-copytoarray h0.dst v.dst i;
  option = h0.option;
}

read_option_lem :
    (g : Ipv4Header) (buf : List ℕ) (at len : ℕ)
    → 5 ≤ g.hlen
    → g.hlen < 16
    → length g.option ≡ 40
    → g.hlen * 4 ≤ len
    → at + g.hlen * 4 ≤ length buf
    → read_option buf at len g
      ≡ ok tt
          (record g { option = splice 0 (take (g.hlen * 4 - 20) (drop (at + 20) buf)) g.option })
unfolding length_of
read_option_lem g buf at len low high room l b =
    let n = option_length g in
    let bytes = take n (drop (at + 20) buf) in
    let (e, small) = option_length_lem g low high in
    let long : length bytes ≤ length g.option =
      omega (arith, length-take n (drop (at + 20) buf), e) in
    >>=-ok (throw_if (ltb len (g.hlen * 4)) _) (λ _. fetch buf (at + 20) n >>= store_option) g
      (rw (ge→ltb len (g.hlen * 4) l))
    ∙ >>=-ok (fetch buf (at + 20) n) store_option g
        (within_bounds buf (at + 20) n bytes g (omega (arith, e)))
    ∙ rw (le→leb (length bytes) (length g.option) long) (
        ap
          (λ (k : ℕ). ok tt (record g { option = splice 0 (take k (drop (at + 20) buf)) g.option }))
          e)

-- The forward step of `read`: enough length, enough memory, a header length of 20 or more.
pub read_lem :
    (h : Ipv4Header) (p : Ip) (buf : List ℕ) (at len : ℕ)
    → ip.view (drop at buf) ≡ p
    → 5 ≤ p.hlen
    → p.hlen < 16
    → length h.option ≡ 40
    → p.hlen * 4 ≤ len
    → at + p.hlen * 4 ≤ length buf
    → read buf at len h
      ≡ ok tt (record (of_struct p h) {
        option = splice 0 (take (p.hlen * 4 - 20) (drop (at + 20) buf)) h.option;
      })
unfolding read length_of
read_lem h p buf at len e low high room l b =
    let rest = λ (q : Ip). modify (of_struct q) >> read_option buf at len in
    >>=-ok (throw_if (ltb len 20) _) (λ _. cast ip buf at >>= rest) h
      (rw (ge→ltb len 20 (omega arith)))
    ∙ >>=-ok (cast ip buf at) rest h
        (within_bounds buf at 20 (ip.view (drop at buf)) h (omega arith))
    ∙ ap (λ q. read_option buf at len (of_struct q h)) e
    ∙ read_option_lem (of_struct p h) buf at len low high room l b

-- A header length below 20 passes every test of `read`, and the length of the options wraps: on any
-- buffer that exists the copy of the options leaves it.
pub read_faults_on_short_hlen :
    (h : Ipv4Header) (buf : List ℕ) (at len : ℕ)
    → 20 ≤ len
    → at + 20 ≤ length buf
    → length buf < 2 ^ 63
    → (ip.view (drop at buf)).hlen < 5
    → read buf at len h ≡ fault
unfolding read length_of sub_size
read_faults_on_short_hlen h buf at len l b small low =
    let rest = λ (q : Ip). modify (of_struct q) >> read_option buf at len in
    let g = of_struct (ip.view (drop at buf)) h in
    >>=-ok (throw_if (ltb len 20) _) (λ _. cast ip buf at >>= rest) h (rw (ge→ltb len 20 l))
    ∙ >>=-ok (cast ip buf at) rest h (within_bounds buf at 20 (ip.view (drop at buf)) h b)
    ∙ >>=-ok (throw_if (ltb len (g.hlen * 4)) _)
        (λ _. fetch buf (at + 20) (option_length g) >>= store_option) g
        (rw (ge→ltb len (g.hlen * 4) (omega arith)))
    ∙ >>=-fault (fetch buf (at + 20) (option_length g)) store_option g
        (within_fault buf (at + 20) (option_length g) _ g (omega arith))

-- The struct and the options in use, found again in the memory that was written.
image_in_place :
    (h : Ipv4Header) (at : ℕ) (mem : Memory)
    → IsValid h
    → at + h.hlen * 4 ≤ length mem
    → (ip.view (drop at (splice at (image h) mem)) ≡ to_struct h)
      × (take (h.hlen * 4 - 20) (drop (at + 20) (splice at (image h) mem))
          ≡ take (h.hlen * 4 - 20) h.option)
unfolding image
image_in_place h at mem v b =
    let n = h.hlen * 4 - 20 in
    let base = ip.put (to_struct h) in
    let opts = take n h.option in
    let after = drop (at + length (base ++ opts)) mem in
    let (_, small) = option_length_lem h v.hlen_low v.hlen_high in
    let long : length opts ≡ n = length-take_le n h.option (omega (arith, small, v.option_room)) in
    let total = length-append base opts in
    let found : drop at (splice at (base ++ opts) mem) ≡ base ++ (opts ++ after) =
      drop-splice at (base ++ opts) mem
        (omega (arith, total, long, length-put_struct h v, v.hlen_low))
      ∙ append_assoc base opts after in
    (
      ap ip.view found ∙ ip.view-put (to_struct h) (opts ++ after) (to_struct-Fits h v),
      ap (take n) (
            sym (drop-drop at 20 (splice at (base ++ opts) mem))
            ∙ ap (drop 20) found
            ∙ drop-append base (opts ++ after) 20 (length-put_struct h v))
          ∙ take-append opts after n long,
    )

-- A valid header written into memory, at whatever offset, is read back by `read` into an object
-- whose option array has its 40 bytes: every member, and the options in use; behind those the array
-- keeps what it held. The length given and the memory must reach the header's end.
pub read-write_ipv4 :
    (h h0 : Ipv4Header) (at len : ℕ) (mem : Memory)
    → IsValid h
    → length h0.option ≡ 40
    → length_of h ≤ len
    → at + length_of h ≤ length mem
    → (mem' : Memory) × (write h at len mem ≡ ok tt mem')
      × (read mem' at len h0
          ≡ ok tt (record h { option = splice 0 (take (h.hlen * 4 - 20) h.option) h0.option }))
unfolding length_of
read-write_ipv4 h h0 at len mem v room l b =
    let mem' = splice at (image h) mem in
    let (seen, opts) = image_in_place h at mem v b in
    (
      mem',
      write_image h at len mem v l b,
      read_lem h0 (to_struct h) mem' at len seen v.hlen_low v.hlen_high room l
            (omega (arith, length-splice at (image h) mem))
          ∙ (λ i.
              ok tt
                (record (of_struct-to_struct h h0 v i) { option = splice 0 (opts i) h0.option })),
    )

abbrev pub cleared : Ipv4Header → Ipv4Header
cleared h = record {
  version = 4;
  hlen = 5;
  tos = 0;
  tot_len = 20;
  id = 0;
  frag_off = 0;
  ttl = 64;
  protocol = 0;
  check = 0;
  src = Ipv4Address.clear h.src;
  dst = Ipv4Address.clear h.dst;
  option = replicate 40 0;
}

module _ {A : Type 0} (m : Exec Ipv4Address A) (h : Ipv4Header) {a : A} {t : Ipv4Address} where
  on_src-ok : m h.src ≡ ok a t → on_src m h ≡ ok a (record h { src = t })
  on_src-ok e = rw (e, member)

  on_dst-ok : m h.dst ≡ ok a t → on_dst m h ≡ ok a (record h { dst = t })
  on_dst-ok e = rw (e, member)

-- `clear` returns where `inet_pton` reads "0.0.0.0": it leaves a valid header of 20 bytes.
pub clear_lem :
    (inet_pton : Pton) (h : Ipv4Header)
    → inet_pton (codes "0.0.0.0") ≡ some (replicate 4 0)
    → clear inet_pton h ≡ ok tt (cleared h)
unfolding clear
clear_lem inet_pton h e =
    let zeros = Ipv4Address.set_str inet_pton (codes "0.0.0.0") in
    let started = record (cleared h) { src = h.src; dst = h.dst; option = h.option } in
    >>=-ok (on_src zeros) _ started
      (on_src-ok zeros started (Laws.set_str_zeros inet_pton (codes "0.0.0.0") h.src e))
    ∙ >>=-ok (on_dst zeros) _ _ (
        on_dst-ok zeros (record started { src = Ipv4Address.clear h.src })
          (Laws.set_str_zeros inet_pton (codes "0.0.0.0") h.dst e))

pub cleared-IsValid : (h : Ipv4Header) → IsValid (cleared h)
cleared-IsValid h = record {
  version = omega arith;
  hlen_low = omega arith;
  hlen_high = omega arith;
  tos = omega arith;
  tot_len = omega arith;
  id = omega arith;
  frag_off = omega arith;
  ttl = omega arith;
  protocol = omega arith;
  check = omega arith;
  src = Laws.clear-IsValid h.src;
  dst = Laws.clear-IsValid h.dst;
  option_room = refl;
  option_bytes = omega arith;
}
