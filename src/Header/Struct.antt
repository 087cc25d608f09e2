-- ===== src/Header/Struct.antt =====
-- Headers that are one struct: `write` fills it from the members, `read` fills the members from it.
-- What such a header needs for the contract is stated of the struct alone.
use libpgen.Base.{
  ℕ, ◌+◌, ◌≤◌, ◌<◌, ◌≡◌, ap, ◌∙◌, List, String, arith, length, take, drop, ltb, lt→ltb, subst,
  length-drop, All-drop,
}
use libpgen.Base.Bytes.{IsByte, IsBytes}
use libpgen.Base.Run.{ok, throw, modify, throw_if, ◌>>=◌, ◌>>◌}
use libpgen.Base.Splice.{splice}
use libpgen.Header.Contract.{HeaderOps, Contract}
use libpgen.Layout.{
  Layout, Memory, cast, store, checked_store, checked_cast_ok, checked_cast-splice,
}

module _ {P H : Type 0} (L : Layout P) (we re : String) (to : H → P) (of : P → H → H) where
  -- The operations of a header that is one struct.
  abbrev pub struct_ops : HeaderOps H
  struct_ops = record {
    length_of = λ h. L.size;
    write = λ h at len. throw_if (ltb len L.size) we >> store (L.put (to h)) at;
    read = λ buf at len. throw_if (ltb len L.size) re >> (cast L buf at >>= λ p. modify (of p));
  }

  -- Too short a length: both throw, and neither changes anything.
  pub struct_short :
      (h : H) (at len : ℕ) (buf : List ℕ) (mem : Memory)
      → len < L.size
      → (struct_ops.write h at len mem ≡ throw we mem) × (struct_ops.read buf at len h ≡ throw re h)
  struct_short h at len buf mem l = (rw (lt→ltb len L.size l), rw (lt→ltb len L.size l))

  module _ (IsValid : H → Type 0) (Kept : List ℕ → Type 0)
      (fits : (h : H) → IsValid h → L.Fits (to h)) where
    -- What is written is read back, if the members are those of the struct.
    pub struct-read-write :
        (h h0 : H) (at len : ℕ) (mem : Memory)
        → IsValid h
        → of (to h) h0 ≡ h
        → L.size ≤ len
        → at + L.size ≤ length mem
        → (mem' : Memory) × (struct_ops.write h at len mem ≡ ok tt mem')
          × (struct_ops.read mem' at len h0 ≡ ok tt h)
    struct-read-write h h0 at len mem v e l b = (
      splice at (L.put (to h)) mem,
      checked_store L.size at len we (L.put (to h)) mem (L.length-put (to h) (fits h v)) l b,
      checked_cast-splice L L.size re of at len mem (to h) h0 (fits h v) l b ∙ ap (ok tt) e,
    )

    module _ (valid : (p : P) (h : H) → IsValid h → L.Fits p → IsValid (of p h))
        (kept : (bs : List ℕ) (h : H)
          → Kept bs
          → L.Fits (L.view bs)
          → to (of (L.view bs) h) ≡ L.view bs) where
      struct-read :
          (h h' : H) (buf : List ℕ) (at len : ℕ)
          → IsBytes buf
          → IsValid h
          → struct_ops.read buf at len h ≡ ok tt h'
          → IsValid h'
            × (L.size ≤ len)
            × (at + L.size ≤ length buf)
            × (Kept (drop at buf) → L.put (to h') ≡ take L.size (drop at buf))
      struct-read h h' buf at len bs v r =
          let (l, m, e) = checked_cast_ok L L.size re of at len buf h h' r in
          let ds : IsBytes (drop at buf) = All-drop IsByte at buf bs in
          let room : L.size ≤ length (drop at buf) = omega (arith, length-drop at buf) in
          let f = L.view-Fits (drop at buf) ds room in
          (
            subst IsValid e (valid (L.view (drop at buf)) h v f),
            l,
            m,
            λ k.
                subst (λ x. L.put (to x) ≡ take L.size (drop at buf)) e
                  (ap L.put (kept (drop at buf) h k f) ∙ L.put-view (drop at buf) ds room),
          )

      pub struct-contract : Contract struct_ops IsValid (λ h. L.put (to h)) Kept
      struct-contract = record {
        length-image = λ h v. L.length-put (to h) (fits h v);
        image-IsBytes = λ h v. L.put-IsBytes (to h) (fits h v);
        write_image = λ h at len mem v l b.
            checked_store L.size at len we (L.put (to h)) mem (L.length-put (to h) (fits h v)) l b;
        read_image = struct-read;
      }
