-- ===== src/Packet/Analyze.antt =====
-- What `analyze` leaves, and that `compile` then restores the bytes that were analyzed.
use libpgen.Base.{
  ℕ, ◌+◌, ◌-◌, ◌≤◌, ◌<◌, ◌≡◌, ap, ap₂, sym, subst, ◌∙◌, List, ◌++◌, arith, length, take, drop,
  le→leb, All-take, All-drop, length-drop, take-append-drop, take-length,
}
use libpgen.Base.Bytes.{IsByte, IsBytes, size_mod}
use libpgen.Base.Run.{ok}
use libpgen.Packet.{
  Packet, set_contents, header_length_of, header_length, contents, raw, length_of, compile,
  read_headers, take_contents, analyze,
}
use libpgen.Packet.Contents.{set_contents_lem, take_contents-eq-ok}
use libpgen.Packet.Headers.{images}
use libpgen.Packet.Kinds.{kinds, kinds-read_headers}
use libpgen.Packet.Laws.{IsValid, raw_lem, compile_lem}
use libpgen.Packet.Reading.{AllKept, read_headers_lem, AllReadable, read_headers_total}

-- What an `analyze` that returns leaves: headers that are valid and, read from bytes with no IPv6
-- flow label and traffic class, stand for exactly the front of the buffer, and the rest of the
-- `len` bytes as contents.
pub record Analyzed (buf : List ℕ) (len : ℕ) (p' : Packet) : Type 0 where
  pub valid : IsValid p'
  pub fits : header_length_of p'.headers ≤ len
  pub rest :
      contents p'
      ≡ ok (take (len - header_length_of p'.headers) (drop (header_length_of p'.headers) buf)) p'
  pub front : AllKept buf p'.headers → images p'.headers ≡ take (header_length_of p'.headers) buf

-- An `analyze` of bytes that returns, over a valid packet, leaves a packet that is `Analyzed`: valid,
-- with headers that fit the length given, and the rest of that length as contents. Where no IPv6 header
-- among what was read has a flow label or a traffic class, the bytes of the headers are the front of
-- the buffer.
pub analyze-Analyzed :
    (buf : List ℕ) (len : ℕ) (p p' : Packet)
    → IsBytes buf
    → len < size_mod
    → IsValid p
    → analyze buf len p ≡ ok tt p'
    → Analyzed buf len p'
unfolding analyze set_contents
analyze-Analyzed buf len p p' bs s v r =
    let (at, left, hs, e, room, same) =
      take_contents-eq-ok buf p (read_headers buf 0 len p.headers) r in
    let read = read_headers_lem buf 0 len at left p.headers hs bs s (omega arith) v.headers e in
    let q = record p { headers = hs } in
    let v' : IsValid q = record {
      container = v.container;
      pivot = v.pivot;
      headers = read.valid;
      small = omega (arith, read.same_max, v.small);
    } in
    let behind = take left (drop at buf) in
    let (valid, kept, contents', _) =
      set_contents_lem q behind v' (All-take IsByte left _ (All-drop IsByte at buf bs)) in
    let at_is : at ≡ header_length_of hs = omega (arith, read.pointer) in
    let left_is : left ≡ len - header_length_of hs = omega (arith, read.left) in
    subst (Analyzed buf len) same (record {
      valid = valid;
      fits = omega (arith, read.left);
      rest =
          contents'
          ∙ ap (λ xs. ok xs (set_contents behind q))
              (ap₂ (λ (j k : ℕ). take j (drop k buf)) left_is at_is);
      front = read.bytes;
    })

-- `analyze` returns, and what `AllReadable` says of flow labels and traffic classes holds of the new
-- headers.
analyze_returns :
    (buf : List ℕ) (p : Packet)
    → IsBytes buf
    → length buf < size_mod
    → IsValid p
    → AllReadable p.headers (length buf) buf
    → (p' : Packet) × (analyze buf (length buf) p ≡ ok tt p') × AllKept buf p'.headers
unfolding analyze set_contents
analyze_returns buf p bs s v r =
    let ((at, left), hs, e, kept) =
      read_headers_total buf 0 (length buf) p.headers bs s (omega arith) v.headers r in
    let read =
      read_headers_lem buf 0 (length buf) at left p.headers hs bs s (omega arith) v.headers e in
    (
      set_contents (take left (drop at buf)) (record p { headers = hs }),
      ap (take_contents buf p) e
          ∙ rw (le→leb (at + left) (length buf) (omega (arith, read.left, read.pointer))),
      kept,
    )

ok-injective : {xs ys : List ℕ} {p : Packet} → ok xs p ≡ ok ys p → xs ≡ ys
ok-injective e = cc

take-length-drop : (n : ℕ) (bs : List ℕ) → take (length bs - n) (drop n bs) ≡ drop n bs
take-length-drop n bs = take-length (drop n bs) (length bs - n) (omega (arith, length-drop n bs))

-- On bytes that hold one readable header after the other, an IPv6 header without flow label and
-- traffic class, `analyze` of a valid packet returns. It leaves a valid packet whose headers fit the
-- buffer and, one behind the other, are exactly its front; all the rest is the contents.
pub analyze_total :
    (buf : List ℕ) (p : Packet)
    → IsBytes buf
    → length buf < size_mod
    → IsValid p
    → AllReadable p.headers (length buf) buf
    → (p' : Packet) × (analyze buf (length buf) p ≡ ok tt p')
      × IsValid p'
      × (header_length_of p'.headers ≤ length buf)
      × (images p'.headers ≡ take (header_length_of p'.headers) buf)
      × (contents p' ≡ ok (drop (header_length_of p'.headers) buf) p')
analyze_total buf p bs s v r =
    let (p', e, kept) = analyze_returns buf p bs s v r in
    let a = analyze-Analyzed buf (length buf) p p' bs s v e in
    (
      p',
      e,
      a.valid,
      a.fits,
      a.front kept,
      a.rest ∙ ap (λ xs. ok xs p') (take-length-drop (header_length_of p'.headers) buf),
    )

analyze-kinds :
    (buf : List ℕ) (len : ℕ) (p : Packet) {p' : Packet}
    → analyze buf len p ≡ ok tt p'
    → kinds p'.headers ≡ kinds p.headers
unfolding analyze set_contents
analyze-kinds buf len p e =
    let (at, left, hs, e', _, same) =
      take_contents-eq-ok buf p (read_headers buf 0 len p.headers) e in
    ap (λ (q : Packet). kinds q.headers) (sym same) ∙ kinds-read_headers p.headers buf 0 len e'

-- A packet that was analyzed and is compiled: `raw` returns what the headers write and, behind it, the
-- bytes behind the headers that were read.
pub recompile_lem :
    (buf : List ℕ) (p p' : Packet)
    → IsBytes buf
    → length buf < size_mod
    → IsValid p
    → analyze buf (length buf) p ≡ ok tt p'
    → (p'' : Packet) × (compile p' ≡ ok tt p'')
      × (raw p'' ≡ ok (images p'.headers ++ drop (header_length_of p'.headers) buf) p'')
      × (length_of p'' ≡ ok (length buf) p'')
      × IsValid p''
      × (p''.headers ≡ p'.headers)
unfolding header_length
recompile_lem buf p p' bs s v e =
    let a = analyze-Analyzed buf (length buf) p p' bs s v e in
    let n = header_length_of p'.headers in
    let (p'', e'', v'', same, raw'', contents'') = compile_lem p' a.valid in
    let (_, contents', _) = raw_lem p' a.valid in
    let (_, behind'', length'') = raw_lem p'' v'' in
    let rest : drop 128 p'.raw.vec ≡ drop n buf =
      ok-injective (sym contents' ∙ a.rest) ∙ take-length-drop n buf in
    let rest'' : drop 128 p''.raw.vec ≡ drop n buf =
      ok-injective (sym behind'' ∙ contents'') ∙ rest in
    let long = ap (λ (xs : List ℕ). length xs) rest'' in
    let headers : header_length_of p''.headers ≡ n = ap header_length_of same in
    (
      p'',
      e'',
      raw'' ∙ ap (λ xs. ok (images p'.headers ++ xs) p'') rest,
      length''
          ∙ ap (λ (k : ℕ). ok k p'') {x = length p''.raw.vec - 128 + header_length_of p''.headers}
              {y = length buf}
              (omega
                (arith, long, length-drop 128 p''.raw.vec, length-drop n buf, headers, a.fits)),
      v'',
      same,
    )

-- One packet analyzed and compiled: the bytes are those that were analyzed, and the object is ready
-- for the next packet.
pub compile-analyze_lem :
    (buf : List ℕ) (p : Packet)
    → IsBytes buf
    → length buf < size_mod
    → IsValid p
    → AllReadable p.headers (length buf) buf
    → (p' p'' : Packet) × (analyze buf (length buf) p ≡ ok tt p')
      × (compile p' ≡ ok tt p'')
      × (raw p'' ≡ ok buf p'')
      × (length_of p'' ≡ ok (length buf) p'')
      × IsValid p''
      × (kinds p''.headers ≡ kinds p.headers)
compile-analyze_lem buf p bs s v r =
    let (p', e, kept) = analyze_returns buf p bs s v r in
    let a = analyze-Analyzed buf (length buf) p p' bs s v e in
    let n = header_length_of p'.headers in
    let (p'', e'', raw'', length'', v'', same) = recompile_lem buf p p' bs s v e in
    (
      p',
      p'',
      e,
      e'',
      raw''
          ∙ ap (λ xs. ok xs p'')
              (ap (λ xs. xs ++ drop n buf) (a.front kept) ∙ take-append-drop n buf),
      length'',
      v'',
      ap kinds same ∙ analyze-kinds buf (length buf) p e,
    )

-- What `module::check` tests of each packet: `compile` after `analyze` gives the bytes that were
-- analyzed. It holds for every valid packet object and all bytes that hold one readable header after
-- the other, an IPv6 header without flow label and traffic class; `analyze` and `compile` return,
-- `raw` returns the bytes, and `length` their number.
pub raw-compile-analyze :
    (buf : List ℕ) (p : Packet)
    → IsBytes buf
    → length buf < size_mod
    → IsValid p
    → AllReadable p.headers (length buf) buf
    → (p' p'' : Packet) × (analyze buf (length buf) p ≡ ok tt p')
      × (compile p' ≡ ok tt p'')
      × (raw p'' ≡ ok buf p'')
      × (length_of p'' ≡ ok (length buf) p'')
raw-compile-analyze buf p bs s v r =
    let (p', p'', e, e', back, long, _, _) = compile-analyze_lem buf p bs s v r in
    (p', p'', e, e', back, long)
