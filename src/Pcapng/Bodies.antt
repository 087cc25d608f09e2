-- ===== src/Pcapng/Bodies.antt =====
-- The bodies of the three block classes, written and read.
use libpgen.Base.{
  ℕ, ◌+◌, ◌-◌, ◌≤◌, ◌≡◌, refl, sym, ap, ◌∙◌, List, ◌++◌, arith, length, take, drop, ge→ltb, ==_iff,
  length-append, length-take_le, length-drop, drop-drop,
}
use libpgen.Base.Run.{ok, >>=-ok, modify}
use libpgen.Base.Splice.{splice, splice-take_behind}
use libpgen.Layout.{
  Memory, StandsAt, StandsAt-append, cast-StandsAt, store-splice, store_within, within_bounds, cast,
  fetch, store,
}
use libpgen.Pcapng.{Block, section_header, interface_description, enhanced_packet}
use libpgen.Pcapng.Contract.{Contract}
use libpgen.Pcapng.Shb
use libpgen.Pcapng.Idb
use libpgen.Pcapng.Epb
use libpgen.Pcapng.Shb.{Shb, shb_struct}
use libpgen.Pcapng.Idb.{Idb, idb_struct}
use libpgen.Pcapng.Epb.{Epb, EpbStruct, epb_struct, pad4}

pub shb_contract :
    Contract Shb.ops section_header shb_struct.Fits (λ s _. shb_struct.put s) (λ s _. s)
unfolding Shb.read_body Shb.write_body
shb_contract = record {
  length-fill = λ s under v l. shb_struct.length-put s v;
  body_length-seen = λ s bs. refl;
  write_fill = λ s at len mem v l r.
      rw (ge→ltb len 16 l) (store_within (shb_struct.put s) at mem (omega (arith, r)));
  read_fill = λ s c under buf at len v t l u st.
      rw ((==_iff c.type section_header).1 t, ge→ltb len 16 l)
        (>>=-ok (cast shb_struct buf at) (λ s. modify (λ (c : Block Shb). record c { body = s })) c
          (cast-StandsAt shb_struct s buf at c v st));
}

pub idb_contract :
    Contract Idb.ops interface_description idb_struct.Fits (λ s _. idb_struct.put s) (λ s _. s)
unfolding Idb.read_body Idb.write_body
idb_contract = record {
  length-fill = λ s under v l. idb_struct.length-put s v;
  body_length-seen = λ s bs. refl;
  write_fill = λ s at len mem v l r.
      rw (ge→ltb len 8 l) (store_within (idb_struct.put s) at mem (omega (arith, r)));
  read_fill = λ s c under buf at len v t l u st.
      rw ((==_iff c.type interface_description).1 t, ge→ltb len 8 l)
        (>>=-ok (cast idb_struct buf at) (λ s. modify (λ (c : Block Idb). record c { body = s })) c
          (cast-StandsAt idb_struct s buf at c v st));
}

-- An enhanced packet block whose pointer has the bytes that it says it captured.
pub record IsPacket (e : Epb) : Type 0 where
  pub fits : epb_struct.Fits e.fields
  pub captured : e.fields.capture_length ≤ length e.packet

-- The struct and the captured bytes; the padding is not written.
abbrev pub epb_front : Epb → List ℕ
epb_front e = epb_struct.put e.fields ++ take e.fields.capture_length e.packet

abbrev pub epb_fill : Epb → List ℕ → List ℕ
epb_fill e under =
    let n = e.fields.capture_length in
    epb_front e ++ take (pad4 (20 + n) - (20 + n)) (drop (length (epb_front e)) under)

-- The pointer points into the buffer.
abbrev pub epb_seen : Epb → List ℕ → Epb
epb_seen e bs = record e { packet = drop 20 bs }

pub pad4_le : (n : ℕ) → n ≤ pad4 n
pad4_le n = ground arith

length-epb_front : (e : Epb) → IsPacket e → length (epb_front e) ≡ 20 + e.fields.capture_length
length-epb_front e v = omega (
  arith,
  length-append (epb_struct.put e.fields) (take e.fields.capture_length e.packet),
  epb_struct.length-put e.fields v.fits,
  length-take_le e.fields.capture_length e.packet v.captured,
)

length-epb_fill :
    (e : Epb) (under : List ℕ)
    → IsPacket e
    → Epb.body_length e ≤ length under
    → length (epb_fill e under) ≡ Epb.body_length e
length-epb_fill e under v l =
    let n = e.fields.capture_length in
    let front = length-epb_front e v in
    let rest = drop (length (epb_front e)) under in
    let m = pad4 (20 + n) - (20 + n) in
    omega (
      arith,
      length-append (epb_front e) (take m rest),
      length-take_le m rest (omega (arith, front, l, length-drop (length (epb_front e)) under)),
      front,
      pad4_le (20 + n),
    )

epb-write_fill :
    (e : Epb) (at len : ℕ) (mem : Memory)
    → IsPacket e
    → Epb.body_length e ≤ len
    → at + Epb.body_length e ≤ length mem
    → Epb.write_body e at len mem ≡ ok tt (splice at (epb_fill e (drop at mem)) mem)
unfolding Epb.write_body
epb-write_fill e at len mem v l r =
    let n = e.fields.capture_length in
    let head = epb_struct.put e.fields in
    let h20 = epb_struct.length-put e.fields v.fits in
    let le = pad4_le (20 + n) in
    rw (ge→ltb len (Epb.body_length e) l) (
      >>=-ok (store head at) _ mem (store_within head at mem (omega (arith, h20, le, r)))
      ∙ >>=-ok (fetch e.packet 0 n) (λ bytes. store bytes (at + 20)) (splice at head mem)
          (within_bounds e.packet 0 n (take n (drop 0 e.packet)) (splice at head mem)
            (omega (arith, v.captured)))
      ∙ store-splice head (take n e.packet) mem at (at + 20) (omega (arith, h20))
          (omega (arith, length-take_le n e.packet v.captured, le, r))
      ∙ ap (ok tt) (sym (splice-take_behind at (pad4 (20 + n) - (20 + n)) (epb_front e) mem)))

epb-read_fill :
    (e : Epb) (c : Block Epb) (under buf : List ℕ) (at len : ℕ)
    → IsPacket e
    → c.type ≡ enhanced_packet
    → Epb.body_length e ≤ len
    → Epb.body_length e ≤ length under
    → StandsAt (epb_fill e under) buf at
    → Epb.read_body buf at len c ≡ ok tt (record c { body = epb_seen e (drop at buf) })
unfolding Epb.read_body
epb-read_fill e c under buf at len v t l u st =
    let n = e.fields.capture_length in
    let head = epb_struct.put e.fields in
    let le = pad4_le (20 + n) in
    let m = pad4 (20 + n) - (20 + n) in
    let front =
      StandsAt-append (epb_front e) (take m (drop (length (epb_front e)) under)) buf at st in
    let first = StandsAt-append head (take n e.packet) buf at front.0 in
    rw ((==_iff c.type enhanced_packet).1 t, ge→ltb len 20 (omega (arith, le, l)))
      (>>=-ok (cast epb_struct buf at) _ c
          (cast-StandsAt epb_struct e.fields buf at c v.fits first.0)
        ∙ rw (ge→ltb len (Epb.body_length e) l) (
            ap (λ bs. ok tt (record c { body = record { fields = e.fields; packet = bs } }))
              (sym (drop-drop at 20 buf))))

pub epb_contract : Contract Epb.ops enhanced_packet IsPacket epb_fill epb_seen
epb_contract = record {
  length-fill = length-epb_fill;
  body_length-seen = λ e bs. refl;
  write_fill = epb-write_fill;
  read_fill = epb-read_fill;
}
