-- ===== src/Header/Ipv4/Write.antt =====
-- What `write` of an IPv4 header puts into memory.
use libpgen.Base.{
  ℕ, ◌+◌, ◌-◌, ◌*◌, ◌≤◌, ◌≡◌, sym, ap, ◌∙◌, arith, length, take, ltb, ge→ltb, length-take_le,
}
use libpgen.Base.Run.{ok, >>=-ok, throw_if, ◌>>◌}
use libpgen.Base.Splice.{splice, splice-after, length-splice}
use libpgen.Header.Ipv4.{ip, Ipv4Header, write, length_of, to_struct, option_length, write_option}
use libpgen.Layout.{Memory, store, fetch, store_within, within_bounds}
use libpgen.Header.Ipv4.Valid.{IsValid, image, to_struct-Fits, option_length_lem}

write_option_lem :
    (h : Ipv4Header) (at : ℕ) (mem : Memory)
    → IsValid h
    → at + h.hlen * 4 ≤ length mem
    → write_option h at mem ≡ ok tt (splice (at + 20) (take (h.hlen * 4 - 20) h.option) mem)
write_option_lem h at mem v b =
    let n = option_length h in
    let (e, small) = option_length_lem h v.hlen_low v.hlen_high in
    let room : n ≤ length h.option = omega (arith, v.option_room, e) in
    let long : length (take n h.option) ≡ n = length-take_le n h.option room in
    >>=-ok (fetch h.option 0 n) (λ bytes. store bytes (at + 20)) mem
      (within_bounds h.option 0 n (take n h.option) mem (omega arith))
    ∙ store_within (take n h.option) (at + 20) mem (omega (arith, long, e, v.hlen_low))
    ∙ ap (λ (k : ℕ). ok tt (splice (at + 20) (take k h.option) mem)) e

pub length-put_struct : (h : Ipv4Header) → IsValid h → length (ip.put (to_struct h)) ≡ 20
length-put_struct h v = ip.length-put (to_struct h) (to_struct-Fits h v)

pub write_image :
    (h : Ipv4Header) (at len : ℕ) (mem : Memory)
    → IsValid h
    → length_of h ≤ len
    → at + length_of h ≤ length mem
    → write h at len mem ≡ ok tt (splice at (image h) mem)
unfolding write length_of image
write_image h at len mem v l b =
    let base = ip.put (to_struct h) in
    let opts = take (h.hlen * 4 - 20) h.option in
    let filled = splice at base mem in
    >>=-ok (throw_if (ltb len (h.hlen * 4)) _) (λ _. store base at >> write_option h at) mem
      (rw (ge→ltb len (h.hlen * 4) l))
    ∙ >>=-ok (store base at) (λ _. write_option h at) mem
        (store_within base at mem (omega (arith, length-put_struct h v, v.hlen_low)))
    ∙ write_option_lem h at filled v (omega (arith, length-splice at base mem))
    ∙ ap (λ (k : ℕ). ok tt (splice (at + k) opts filled)) (sym (length-put_struct h v))
    ∙ ap (ok tt) (splice-after at base opts mem)
