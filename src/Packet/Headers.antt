-- ===== src/Packet/Headers.antt =====
-- The two loops over the headers of a packet.
use libpgen.Base.{
  ℕ, ◌+◌, ◌-◌, ◌≤◌, ◌≡◌, refl, ap, ap₂, sym, ◌∙◌, List, [], ◌∷◌, ◌++◌, arith, length, le→leb,
  append_assoc, append-nil, reverse, All, All-append, subst, length-append,
}
use libpgen.Base.Bytes.{IsByte, IsBytes}
use libpgen.Base.Run.{ok, >>=-ok}
use libpgen.Base.Splice.{splice, splice-nil, splice-splice, length-splice}
use libpgen.Header
use libpgen.Header.{Header}
use libpgen.Header.Laws
use libpgen.Layout.{Memory}
use mathlib.Core.List.{reverse-append}
use libpgen.Packet.{header_length_of, write_headers}

-- The headers as bytes, in order.
abbrev pub images : List Header → List ℕ
images [] = []
images (h ∷ hs) = Laws.image h ++ images hs

-- From the last to the first.
abbrev images_back : List Header → List ℕ
images_back [] = []
images_back (h ∷ hs) = images_back hs ++ Laws.image h

pub length-images :
    (hs : List Header) → All Laws.IsValid hs → length (images hs) ≡ header_length_of hs
unfolding header_length_of
length-images [] v = refl
length-images (h ∷ hs) (v, vs) =
    length-append (Laws.image h) (images hs) ∙ ap₂ ◌+◌ (Laws.length-image h v) (length-images hs vs)

pub images-IsBytes : (hs : List Header) → All Laws.IsValid hs → IsBytes (images hs)
images-IsBytes [] v = tt
images-IsBytes (h ∷ hs) (v, vs) =
    All-append IsByte (Laws.image h) (images hs) (Laws.image-IsBytes h v) (images-IsBytes hs vs)

-- Headers written downwards from `pointer` are their bytes before it.
write_headers_back :
    (hs : List Header) (pointer : ℕ) (mem : Memory)
    → All Laws.IsValid hs
    → length (images_back hs) ≤ pointer
    → pointer ≤ length mem
    → write_headers hs pointer mem
      ≡ ok tt (splice (pointer - length (images_back hs)) (images_back hs) mem)
unfolding write_headers
write_headers_back [] pointer mem v l b = ap (ok tt) (sym (splice-nil (pointer - 0) mem))
write_headers_back (h ∷ hs) pointer mem (v, vs) l b =
    let k = Header.length_of h in
    let back = images_back hs in
    let bytes = Laws.image h in
    let total = length-append back bytes in
    let long = Laws.length-image h v in
    let start = pointer - k in
    let written = splice start bytes mem in
    rw (le→leb k pointer (omega (arith, total, long))) (
      >>=-ok (Header.write h start k) (λ _. write_headers hs start) mem
        (Laws.write_image h start k mem v (omega arith) (omega (arith, total, long)))
      ∙ write_headers_back hs start written vs (omega (arith, total, long))
          (omega (arith, length-splice start bytes mem))
      ∙ ap (λ (at : ℕ). ok tt (splice (start - length back) back (splice at bytes mem)))
          (omega (arith, total, long))
      ∙ ap (ok tt) (splice-splice (start - length back) back bytes mem)
      ∙ ap (λ (at : ℕ). ok tt (splice at (back ++ bytes) mem)) (omega (arith, total, long)))

images_back-append :
    (hs ks : List Header) → images_back (hs ++ ks) ≡ images_back ks ++ images_back hs
images_back-append [] ks = sym (append-nil (images_back ks))
images_back-append (h ∷ hs) ks =
    ap (λ xs. xs ++ Laws.image h) (images_back-append hs ks)
    ∙ append_assoc (images_back ks) (images_back hs) (Laws.image h)

images_back-reverse : (hs : List Header) → images_back (reverse hs) ≡ images hs
images_back-reverse [] = refl
images_back-reverse (h ∷ hs) =
    ap images_back (reverse-append (h ∷ []) hs)
    ∙ images_back-append (reverse hs) (h ∷ [])
    ∙ ap (λ xs. Laws.image h ++ xs) (images_back-reverse hs)

All-reverse : (hs : List Header) → All Laws.IsValid hs → All Laws.IsValid (reverse hs)
All-reverse [] v = tt
All-reverse (h ∷ hs) (v, vs) =
    subst (All Laws.IsValid) (sym (reverse-append (h ∷ []) hs))
      (All-append Laws.IsValid (reverse hs) (h ∷ []) (All-reverse hs vs) (v, tt))

-- The loop of `compile` puts the bytes of all headers, in order, right before `pointer`.
pub write_headers_lem :
    (hs : List Header) (pointer : ℕ) (mem : Memory)
    → All Laws.IsValid hs
    → header_length_of hs ≤ pointer
    → pointer ≤ length mem
    → write_headers (reverse hs) pointer mem
      ≡ ok tt (splice (pointer - header_length_of hs) (images hs) mem)
write_headers_lem hs pointer mem v l b =
    let e = images_back-reverse hs in
    let long = length-images hs v in
    write_headers_back (reverse hs) pointer mem (All-reverse hs v)
      (omega (arith, ap (λ (xs : List ℕ). length xs) e, long)) b
    ∙ ap (λ xs. ok tt (splice (pointer - length xs) xs mem)) e
    ∙ ap (λ (k : ℕ). ok tt (splice (pointer - k) (images hs) mem)) long
