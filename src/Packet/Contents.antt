-- ===== src/Packet/Contents.antt =====
-- `set_contents`, and the last step of `analyze`, which calls it.
use libpgen.Base.{
  ℕ, ◌+◌, ◌≤◌, ◌≡◌, refl, ap, sym, ◌∙◌, List, arith, length, take, drop, leb, inl, inr, Bool-cases,
  leb→le,
}
use libpgen.Base.Bytes.{IsBytes}
use libpgen.Base.Run.{Run, ok, throw, fault}
use libpgen.DataContainer
use libpgen.DataContainer.Laws as ContainerLaws
use libpgen.Header.{Header}
use libpgen.Packet.{
  Packet, set_contents, header_length_of, header_length, contents, length_of, take_contents,
}
use libpgen.Packet.Laws.{IsValid, raw_lem}

-- `set_contents` of any bytes: `contents` returns them, `length` counts them with the headers, and
-- the headers are as before.
pub set_contents_lem :
    (p : Packet) (buf : List ℕ)
    → IsValid p
    → IsBytes buf
    → let p' = set_contents buf p in
      IsValid p'
      × (p'.headers ≡ p.headers)
      × (contents p' ≡ ok buf p')
      × (length_of p' ≡ ok (header_length p + length buf) p')
unfolding set_contents header_length
set_contents_lem p buf v bs =
    let (container, _, behind, long) = ContainerLaws.set_content_lem p.raw buf v.container bs in
    let p' = set_contents buf p in
    let v' : IsValid p' = record {
      container = container;
      pivot = unfold DataContainer.set_content DataContainer.delete_content in v.pivot;
      headers = v.headers;
      small = v.small;
    } in
    let (_, contents', length') = raw_lem p' v' in
    (
      v',
      refl,
      contents' ∙ ap (λ xs. ok xs p') (ap (λ (k : ℕ). drop k p'.raw.vec) (sym v.pivot) ∙ behind),
      length'
          ∙ ap (λ (k : ℕ). ok k p') {y = header_length_of p.headers + length buf}
              (omega (arith, long, v.pivot)),
    )

-- What it takes for the last step of `analyze` to return.
pub take_contents-eq-ok :
    (buf : List ℕ) (p : Packet) (r : Run (List Header) (ℕ × ℕ)) {p' : Packet}
    → take_contents buf p r ≡ ok tt p'
    → (at : ℕ) × (len : ℕ) × (hs : List Header) × (r ≡ ok (at, len) hs)
      × (at + len ≤ length buf)
      × (set_contents (take len (drop at buf)) (record p { headers = hs }) ≡ p')
take_contents-eq-ok buf p (ok (at, len) hs) {p' = p'} e =
    elim (Bool-cases (leb (at + len) (length buf))) [
      | inl fits ↦ (at, len, hs, refl, leb→le (at + len) (length buf) fits, inner (rw fits at e))
      | inr over ↦ cc (rw over at e)
    ]
  where
    inner :
        ◌≡◌ {A = Run Packet (Unit {0})}
          (ok tt (set_contents (take len (drop at buf)) (record p { headers = hs })))
          (ok tt p')
        → set_contents (take len (drop at buf)) (record p { headers = hs }) ≡ p'
    inner q = cc
take_contents-eq-ok buf p (throw m hs) e = cc
take_contents-eq-ok buf p fault e = cc
