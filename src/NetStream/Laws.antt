-- ===== src/NetStream/Laws.antt =====
-- `send`, and `recv` on OS X, by what the system calls return.
use libpgen.Base.{
  ℕ, suc, ◌≤◌, ◌<◌, ◌≡◌, ◌≢◌, refl, sym, ap, subst, ◌∙◌, List, ◌∷◌, Option, some, none, ◌⊎◌, inl,
  inr, arith, length, All, length-append, ◌==◌, ==_iff, false, Bool-cases,
}
use libpgen.Base.Run.{ok, throw, pure, ◌>>=◌}
use libpgen.Base.Splice.{splice}
use libpgen.Layout.{Memory, StandsAt, StandsAt-splice}
use libpgen.NetStream.{Net, Calls, eintr, to_size, read, write, send}
use libpgen.NetStream.Bsd
use libpgen.NetStream.Bsd.Walk.{
  Captured, IsCaptured, record_of, batch, delivered, AreAligned, delivered-batch, packets,
  length-record_of, at_point, recv_rest, recv_filled,
}
use libpgen.Stream.Capture.{recv_each}

not_equal : (m n : ℕ) → (m == n) ≡ false → m ≢ n
not_equal m n h e = cc (sym h ∙ (==_iff m n).1 e)

some-injective : {m n : ℕ} → some m ≡ some n → m ≡ n
some-injective e = cc

module _ {Kernel : Type 0} (calls : Calls Kernel) (fd : ℕ) (k k' : Kernel) where
  abbrev pub before : Net Kernel
  before = record { fd = some fd; kernel = k }

  abbrev pub after : Net Kernel
  after = record { fd = some fd; kernel = k' }

  not_eintr : (n : ℕ) → n ≢ 4 → (n == eintr) ≡ false
  not_eintr n h = elim (Bool-cases (n == eintr)) [
    | inl e ↦ absurd (h ((==_iff n eintr).0 e))
    | inr e ↦ e
  ]

  read_lem :
      (m bufferlen : ℕ) (bytes : List ℕ)
      → calls.read fd bufferlen k ≡ (some bytes, k')
      → length bytes ≢ 4
      → read calls (suc m) bufferlen before ≡ ok (some bytes) after
  unfolding read
  read_lem m bufferlen bytes e h = rw (e, not_eintr (length bytes) h) refl

  -- `send` of fewer than 2^64 - 1 bytes returns if the system took all of them, and throws one and the
  -- same exception if it took fewer and if the call failed.
  pub send_outcome :
      (buffer : List ℕ) (r : Option ℕ)
      → length buffer < 18446744073709551615
      → calls.write fd buffer k ≡ (r, k')
      → ((r ≡ some (length buffer)) × (send calls buffer before ≡ ok tt after))
        ⊎ ((r ≢ some (length buffer))
            × (send calls buffer before
                ≡ throw "pgen::net_stream::write::write: write comletion faild" after))
  unfolding send write
  send_outcome buffer none l e =
      let other : (to_size none == length buffer) ≡ false = ground (arith, l) in
      inr (λ q. cc, rw (e, other) refl)
  send_outcome buffer (some n) l e = elim (Bool-cases (n == length buffer)) [
    | inl h ↦ inl (ap some ((==_iff n (length buffer)).0 h), rw (e, h) refl)
    | inr h ↦ inr (λ q. absurd (not_equal n (length buffer) h (some-injective q)), rw (e, h) refl)
  ]

  -- Where the system's `read` brings packets as the packet filter delivers them, and the buffer takes
  -- them, `recv` called as often as there are packets returns them one by one, in order and whole, with
  -- no further call of the system, and the stream then is to read again. It holds where each header
  -- with its packet, the last one's aside, ends at a multiple of 4, so that the packet filter leaves no
  -- gap before the next. The caller's buffer is as long as the longest packet or longer.
  pub recv_each-batch :
      (m bufferlen readed : ℕ) (buffer : Memory) (c : Captured) (cs : List Captured)
      → calls.read fd (length buffer) k ≡ (some (delivered (c ∷ cs)), k')
      → All IsCaptured (c ∷ cs)
      → AreAligned (c ∷ cs)
      → All (λ p. length p ≤ bufferlen) (packets (c ∷ cs))
      → length (delivered (c ∷ cs)) ≤ length buffer
      → let bytes = delivered (c ∷ cs) in
        recv_each
          (Bsd.recv calls (suc m) bufferlen)
          (length (c ∷ cs))
          (at_point calls (suc m) bufferlen before buffer readed none)
        ≡ ok
            (packets (c ∷ cs))
            (at_point calls (suc m) bufferlen after (splice 0 bytes buffer) (length bytes) none)
  recv_each-batch m bufferlen readed buffer c cs e v whole l r =
      let same = delivered-batch (c ∷ cs) whole in
      let bytes = delivered (c ∷ cs) in
      let mem = splice 0 bytes buffer in
      let long : length bytes ≢ 4 = λ h. omega (
        arith,
        h,
        ap (λ (xs : List ℕ). length xs) same,
        length-append (record_of c) (batch cs),
        length-record_of c v.0,
        v.0.head,
      ) in
      ap
        (λ r.
          ((λ _. r) >>= λ q.
          recv_each (Bsd.recv calls (suc m) bufferlen) (length cs) >>= λ qs. pure (q ∷ qs))
            (at_point calls (suc m) bufferlen before buffer readed none))
        (recv_filled calls (suc m) bufferlen before after buffer readed bytes
          (read_lem m (length buffer) bytes e long) r)
      ∙ recv_rest calls (suc m) bufferlen after mem (length bytes) 0 c cs v l
          (omega (arith, ap (λ (xs : List ℕ). length xs) same))
          (subst (λ xs. StandsAt xs mem 0) same (StandsAt-splice bytes buffer 0 (omega (arith, r))))
