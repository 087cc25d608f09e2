-- ===== src/Packet/Reading.antt =====
-- The loop of `analyze` over the headers of a packet.
use libpgen.Base.{
  ℕ, ◌+◌, ◌-◌, ◌≤◌, ◌<◌, ◌≡◌, refl, ap, ap₂, sym, ◌∙◌, List, [], ◌∷◌, ◌++◌, arith, length, take,
  drop, All, subst, drop-drop, take-add, length-drop,
}
use libpgen.Base.Bytes.{IsBytes, sub_size, sub_size_le, size_mod}
use libpgen.Base.Run.{Run, ok, throw, fault}
use libpgen.Header
use libpgen.Header.{Header}
use libpgen.Header.Laws
use libpgen.Packet.{header_length_of, read_headers, in_front, next_header}
use libpgen.Header.Readable.{IsReadable, length_in, read_returns}
use libpgen.Packet.Headers.{images}

-- Each header kept what it was read from.
abbrev pub AllKept : List ℕ → List Header → Type 0
AllKept bs [] = Unit
AllKept bs (h ∷ hs) = Laws.IsKept h bs × AllKept (drop (Header.length_of h) bs) hs

abbrev pub max_total : List Header → ℕ
max_total [] = 0
max_total (h ∷ hs) = Laws.max_of h + max_total hs

pub header_length_of-le-max_total :
    (hs : List Header) → All Laws.IsValid hs → header_length_of hs ≤ max_total hs
unfolding header_length_of
header_length_of-le-max_total [] v = omega arith
header_length_of-le-max_total (h ∷ hs) (v, vs) =
    omega (arith, Laws.length_of-le-max_of h v, header_length_of-le-max_total hs vs)

-- What the loop of `analyze` has done when it ends.
pub record ReadAll (buf : List ℕ) (at len at' len' : ℕ) (hs hs' : List Header) : Type 0 where
  pub valid : All Laws.IsValid hs'
  pub pointer : at' ≡ at + header_length_of hs'
  pub left : len' + header_length_of hs' ≡ len
  pub room : at' ≤ length buf
  pub bytes : AllKept (drop at buf) hs' → images hs' ≡ take (header_length_of hs') (drop at buf)
  pub same_max : max_total hs' ≡ max_total hs

in_front-eq-ok :
    (h : Header) (r : Run (List Header) (ℕ × ℕ)) {p : ℕ × ℕ} {hs' : List Header}
    → in_front h r ≡ ok p hs'
    → (ks : List Header) × (r ≡ ok p ks) × (h ∷ ks ≡ hs')
in_front-eq-ok h (ok q ks) e = (ks, cc, cc)
in_front-eq-ok h (throw m ks) e = cc
in_front-eq-ok h fault e = cc

pub next_header-eq-ok :
    (r : Run Header (Unit {0})) (rest : Header → Run (List Header) (ℕ × ℕ)) (hs : List Header)
    {p : ℕ × ℕ} {hs' : List Header}
    → next_header r rest hs ≡ ok p hs'
    → (h : Header) × (ks : List Header) × (r ≡ ok tt h) × (rest h ≡ ok p ks) × (h ∷ ks ≡ hs')
next_header-eq-ok (ok _ h) rest hs e =
    let (ks, e', same) = in_front-eq-ok h (rest h) e in (h, ks, refl, e', same)
next_header-eq-ok (throw m h) rest hs e = cc
next_header-eq-ok fault rest hs e = cc

pub read_headers_lem :
    (buf : List ℕ) (at len at' len' : ℕ) (hs hs' : List Header)
    → IsBytes buf
    → len < size_mod
    → at ≤ length buf
    → All Laws.IsValid hs
    → read_headers buf at len hs ≡ ok (at', len') hs'
    → ReadAll buf at len at' len' hs hs'
unfolding read_headers header_length_of
read_headers_lem buf at len at' len' [] hs' bs s b v r =
    let e : [] ≡ hs' = cc in
    let ea : at ≡ at' = cc in
    let el : len ≡ len' = cc in
    subst (ReadAll buf at len at' len' []) e (record {
      valid = tt;
      pointer = omega arith;
      left = omega arith;
      room = omega arith;
      bytes = λ k. refl;
      same_max = refl;
    })
read_headers_lem buf at len at' len' (h ∷ hs) hs' bs s b (v, vs) r =
    let rest = λ (k : Header).
      read_headers buf (at + Header.length_of k) (sub_size len (Header.length_of k)) hs in
    let (k, ks, e, r', same) = next_header-eq-ok (Header.read buf at len h) rest hs r in
    let first = Laws.read_image h k buf at len bs v e in
    let n = Header.length_of k in
    let fits : sub_size len n ≡ len - n = sub_size_le len n s first.enough in
    let others =
      read_headers_lem buf (at + n) (sub_size len n) at' len' hs ks bs (omega (arith, fits))
        first.room vs r' in
    subst (ReadAll buf at len at' len' (h ∷ hs)) same (record {
      valid = (first.valid, others.valid);
      pointer = omega (arith, others.pointer);
      left = omega (arith, others.left, fits, first.enough);
      room = others.room;
      bytes = λ kept.
          ap₂ ◌++◌ (first.bytes kept.0) (
            others.bytes (subst (λ xs. AllKept xs ks) (drop-drop at n buf) kept.1)
            ∙ ap (take (header_length_of ks)) (sym (drop-drop at n buf)))
          ∙ sym (take-add n (header_length_of ks) (drop at buf));
      same_max = ap₂ ◌+◌ first.same_max others.same_max;
    })

-- The bytes hold one readable header after the other.
abbrev pub AllReadable : List Header → ℕ → List ℕ → Type 0
AllReadable [] len bs = Unit
AllReadable (h ∷ hs) len bs =
    IsReadable h len bs × AllReadable hs (len - length_in h bs) (drop (length_in h bs) bs)

-- The loop of `analyze` then returns.
pub read_headers_total :
    (buf : List ℕ) (at len : ℕ) (hs : List Header)
    → IsBytes buf
    → len < size_mod
    → at ≤ length buf
    → All Laws.IsValid hs
    → AllReadable hs len (drop at buf)
    → (p : ℕ × ℕ) × (hs' : List Header) × (read_headers buf at len hs ≡ ok p hs')
      × AllKept (drop at buf) hs'
unfolding read_headers
read_headers_total buf at len [] bs s b v r = ((at, len), [], refl, tt)
read_headers_total buf at len (h ∷ hs) bs s b (v, vs) (first, others) =
    let front = drop at buf in
    let (k, e, n, kept) = read_returns h buf at len bs b v first in
    let l = Header.length_of k in
    let rest = λ (j : Header).
      read_headers buf (at + Header.length_of j) (sub_size len (Header.length_of j)) hs in
    let fits : l ≤ len = omega (arith, n, first.enough) in
    let left : len - length_in h front ≡ sub_size len l =
      omega (arith, sub_size_le len l s fits, n) in
    let behind : drop (length_in h front) front ≡ drop (at + l) buf =
      ap (λ (j : ℕ). drop j front) (sym n) ∙ drop-drop at l buf in
    let (p, ks, e', keeps) =
      read_headers_total buf (at + l) (sub_size len l) hs bs
        (omega (arith, sub_size_le len l s fits)) (omega (arith, length-drop at buf, first.room, n))
        vs
        (subst (AllReadable hs (sub_size len l)) behind
          (subst (λ j. AllReadable hs j (drop (length_in h front) front)) left others)) in
    (
      p,
      k ∷ ks,
      ap (λ q. next_header q rest hs) e ∙ ap (in_front k) e',
      (kept, subst (λ xs. AllKept xs ks) (sym (drop-drop at l buf)) keeps),
    )
