-- ===== src/Layout/Checked.antt =====
-- The shape that every header's `write` and `read` have: a test of the length, then a struct at the
-- pointer. `write` and `read` of the headers compute to the left sides below.
use libpgen.Base.{
  ℕ, ◌+◌, ◌≤◌, ◌≡◌, ap, ◌∙◌, List, ◌++◌, String, arith, length, drop, ltb, ge→ltb, ltb→ge,
}
use libpgen.Base.Run.{ok, throw_if, modify, ◌>>=◌, ◌>>◌, >>=-ok, >>=-eq-ok, throw_if-eq-ok}
use libpgen.Base.Splice.{splice, length-splice, drop-splice}
use libpgen.Layout.Defs.{Layout}
use libpgen.Layout.Access.{cast, store, store_within, within_bounds, within-eq-ok}

pub checked_store :
    (n at len : ℕ) (e : String) (bs mem : List ℕ)
    → length bs ≡ n
    → n ≤ len
    → at + n ≤ length mem
    → (throw_if (ltb len n) e >> store bs at) mem ≡ ok tt (splice at bs mem)
checked_store n at len e bs mem p q r = rw (ge→ltb len n q) (store_within bs at mem (omega arith))

module _ {A H : Type 0} (L : Layout A) (n : ℕ) (e : String) (f : A → H → H) where
  -- Enough length and enough memory: the struct is read.
  pub checked_cast :
      (at len : ℕ) (buf : List ℕ) (h : H)
      → n ≤ len
      → at + L.size ≤ length buf
      → (throw_if (ltb len n) e >> (cast L buf at >>= λ p. modify (f p))) h
        ≡ ok tt (f (L.view (drop at buf)) h)
  checked_cast at len buf h p q =
      >>=-ok (throw_if (ltb len n) e) (λ _. cast L buf at >>= λ a. modify (f a)) h
        (rw (ge→ltb len n p))
      ∙ >>=-ok (cast L buf at) (λ a. modify (f a)) h
          (within_bounds buf at L.size (L.view (drop at buf)) h q)

  -- A read that returns had enough of both.
  pub checked_cast_ok :
      (at len : ℕ) (buf : List ℕ) (h h' : H)
      → (throw_if (ltb len n) e >> (cast L buf at >>= λ p. modify (f p))) h ≡ ok tt h'
      → (n ≤ len) × (at + L.size ≤ length buf) × (f (L.view (drop at buf)) h ≡ h')
  checked_cast_ok at len buf h h' r =
      let (_, s, guard, rest) =
        >>=-eq-ok (throw_if (ltb len n) e) (λ _. cast L buf at >>= λ a. modify (f a)) h r in
      let (enough, same) = throw_if-eq-ok (ltb len n) e h guard in
      let (a, s', view, done) = >>=-eq-ok (cast L buf at) (λ a. modify (f a)) s rest in
      let (room, seen, kept) = within-eq-ok buf at L.size (L.view (drop at buf)) s view in
      (ltb→ge len n enough, room, cc)

  -- A struct is read back from where it was put.
  pub checked_cast-splice :
      (at len : ℕ) (mem : List ℕ) (p : A) (h : H)
      → L.Fits p
      → n ≤ len
      → at + L.size ≤ length mem
      → (throw_if (ltb len n) e >> (cast L (splice at (L.put p) mem) at >>= λ a. modify (f a))) h
        ≡ ok tt (f p h)
  checked_cast-splice at len mem p h fits q r =
      checked_cast at len (splice at (L.put p) mem) h q
        (omega (arith, length-splice at (L.put p) mem))
      ∙ ap (λ (a : A). ok tt (f a h)) (ap L.view found ∙ L.view-put p _ fits)
    where
      found : drop at (splice at (L.put p) mem) ≡ L.put p ++ drop (at + length (L.put p)) mem
      found = drop-splice at (L.put p) mem (omega (arith, L.length-put p fits))
