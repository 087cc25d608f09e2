-- ===== src/Packet/Laws.antt =====
-- `compile` and `analyze` of a packet, and that they are inverse to each other.
use libpgen.Base.{
  ℕ, ◌+◌, ◌-◌, ◌≤◌, ◌≡◌, refl, ap, sym, ◌∙◌, ◌++◌, arith, length, drop, le→leb, All, drop-drop,
  drop-append, reverse,
}
use libpgen.Base.Bytes.{IsByte}
use libpgen.Base.Run.{ok}
use libpgen.Base.Splice.{splice, drop-splice, length-splice, All-splice}
use libpgen.DataContainer.Laws as ContainerLaws
use libpgen.Header.Laws as HeaderLaws
use libpgen.Packet.{
  Packet, header_length_of, header_length, contents, raw, length_of, write_headers, with_vec,
  compile,
}
use libpgen.Packet.Reading.{max_total, header_length_of-le-max_total}
use libpgen.Packet.Headers.{images, length-images, images-IsBytes, write_headers_lem}

pub record IsValid (p : Packet) : Type 0 where
  pub container : ContainerLaws.IsValid p.raw
  pub pivot : p.raw.pivot ≡ 128
  pub headers : All HeaderLaws.IsValid p.headers
  -- The headers fit the space in front, however long each of them is.
  pub small : max_total p.headers ≤ 128

pub header_length_bound : (p : Packet) → IsValid p → header_length p ≤ 128
unfolding header_length
header_length_bound p v = omega (arith, header_length_of-le-max_total p.headers v.headers, v.small)

-- A valid packet's `raw` and `length` do not fail their assertions.
pub raw_lem :
    (p : Packet)
    → IsValid p
    → (raw p ≡ ok (drop (128 - header_length p) p.raw.vec) p)
      × (contents p ≡ ok (drop 128 p.raw.vec) p)
      × (length_of p ≡ ok (length p.raw.vec - 128 + header_length p) p)
unfolding raw contents length_of header_length
raw_lem p v =
    let h = header_length_bound p v in
    let front : 128 ≤ length p.raw.vec = omega (arith, v.container.front, v.pivot) in
    (
      rw (le→leb (header_length_of p.headers) 128 h, le→leb 128 (length p.raw.vec) front),
      rw (le→leb 128 (length p.raw.vec) front),
      rw (le→leb 128 (length p.raw.vec) front),
    )

abbrev compiled : Packet → Packet
compiled p = record p {
  raw = record {
    vec = splice (128 - header_length_of p.headers) (images p.headers) p.raw.vec;
    pivot = p.raw.pivot;
  };
}

compiled-IsValid : (p : Packet) → IsValid p → IsValid (compiled p)
compiled-IsValid p v =
    let at = 128 - header_length_of p.headers in
    let bytes = images p.headers in
    record {
      container = record {
        front = omega (arith, length-splice at bytes p.raw.vec, v.container.front);
        bytes =
            All-splice IsByte at bytes p.raw.vec (images-IsBytes p.headers v.headers)
              v.container.bytes;
      };
      pivot = v.pivot;
      headers = v.headers;
      small = v.small;
    }

-- `compile` of a valid packet returns: the bytes of the headers, in order, now stand right before the
-- contents, and `raw` returns both; contents, headers and validity are as before.
pub compile_lem :
    (p : Packet)
    → IsValid p
    → (p' : Packet) × (compile p ≡ ok tt p')
      × IsValid p'
      × (p'.headers ≡ p.headers)
      × (raw p' ≡ ok (images p.headers ++ drop 128 p.raw.vec) p')
      × (contents p' ≡ ok (drop 128 p.raw.vec) p')
unfolding compile header_length
compile_lem p v =
    let n = header_length_of p.headers in
    let vec = p.raw.vec in
    let bytes = images p.headers in
    let h : n ≤ 128 = header_length_bound p v in
    let front : 128 ≤ length vec = omega (arith, v.container.front, v.pivot) in
    let long = length-images p.headers v.headers in
    let v' = compiled-IsValid p v in
    let (raw', contents', _) = raw_lem (compiled p) v' in
    let placed : drop (128 - n) (splice (128 - n) bytes vec) ≡ bytes ++ drop 128 vec =
      drop-splice (128 - n) bytes vec (omega (arith, long))
      ∙ ap (λ (k : ℕ). bytes ++ drop k vec) {x = 128 - n + length bytes} {y = 128}
          (omega (arith, long)) in
    let behind : drop 128 (splice (128 - n) bytes vec) ≡ drop 128 vec =
      ap (λ (k : ℕ). drop k (splice (128 - n) bytes vec)) {x = 128} {y = 128 - n + n} (omega arith)
      ∙ sym (drop-drop (128 - n) n (splice (128 - n) bytes vec))
      ∙ ap (drop n) placed
      ∙ drop-append bytes (drop 128 vec) n long in
    (
      compiled p,
      ap (with_vec p) (
          ap (λ (k : ℕ). write_headers (reverse p.headers) k vec) v.pivot
          ∙ write_headers_lem p.headers 128 vec v.headers h front),
      v',
      refl,
      raw' ∙ ap (λ xs. ok xs (compiled p)) placed,
      contents' ∙ ap (λ xs. ok xs (compiled p)) behind,
    )
