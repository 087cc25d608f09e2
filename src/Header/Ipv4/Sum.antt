-- ===== src/Header/Ipv4/Sum.antt =====
-- What `ipv4_header::calc_checksum` sums up.
use libpgen.Base.{ℕ, ◌≡◌, ap, sym, ◌∙◌, List, arith, length}
use libpgen.Base.Bytes.{ntohs}
use libpgen.Base.Run.{ok, >>=-ok}
use libpgen.Base.Splice.{splice, splice-all}
use libpgen.Header.Ipv4.{Ipv4Header, write, length_of, calc_checksum}
use libpgen.Header.Ipv4.Valid.{IsValid, image, length-image}
use libpgen.Header.Ipv4.Write.{write_image}
use libpgen.Util.{checksum}

-- Of a valid header `calc_checksum` is the checksum of exactly the bytes of the header, options
-- included, whatever its buffer held at first. It goes on from the `sum` that `checksum` found.
pub calc_checksum_lem :
    (sum : ℕ) (buffer : List ℕ) (h : Ipv4Header)
    → IsValid h
    → length buffer ≡ length_of h
    → calc_checksum sum buffer h ≡ ok (ntohs (checksum sum (image h))) (image h)
unfolding calc_checksum
calc_checksum_lem sum buffer h v long =
    let whole : splice 0 (image h) buffer ≡ image h =
      splice-all (image h) buffer (length-image h v ∙ sym long) in
    >>=-ok (write h 0 (length buffer)) _ buffer (
      write_image h 0 (length buffer) buffer v (omega (arith, long)) (omega (arith, long))
      ∙ ap (ok tt) whole)
