-- ===== src/Layout/Access.antt =====
-- Reading and writing memory through a pointer: an offset into a list of bytes.
use libpgen.Base.{
  ℕ, ◌+◌, ◌≤◌, ◌≡◌, List, length, take, drop, leb, le→leb, leb→le, gt→leb, ◌<◌, if◌then◌else◌,
  Bool-cases, inl, inr, true,
}
use libpgen.Base.Splice.{splice}
use libpgen.Base.Run.{ok, fault, Exec}
use libpgen.Layout.Defs.{Layout}

-- The bytes of one allocation. A pointer into it is an offset.
abbrev pub Memory : Type 0
Memory = List ℕ

-- `x` if the `n` bytes from `at` on exist in `buf`.
abbrev pub within : {S A : Type 0} → List ℕ → ℕ → ℕ → A → Exec S A
within buf at n x s = if leb (at + n) (length buf) then ok x s else fault

-- The bytes that `memcpy(.., buf + at, n)` reads.
abbrev pub fetch : {S : Type 0} → List ℕ → ℕ → ℕ → Exec S (List ℕ)
fetch buf at n = within buf at n (take n (drop at buf))

-- `*reinterpret_cast<const A*>(buf + at)`
abbrev pub cast : {S A : Type 0} → Layout A → List ℕ → ℕ → Exec S A
cast L buf at = within buf at L.size (L.view (drop at buf))

-- Writes `bs` at `at`: a `memcpy`, or the fields of a struct.
abbrev pub store : List ℕ → ℕ → Exec Memory (Unit {0})
store bs at mem = if leb (at + length bs) (length mem) then ok tt (splice at bs mem) else fault

pub store_within :
    (bs : List ℕ) (at : ℕ) (mem : Memory)
    → at + length bs ≤ length mem
    → store bs at mem ≡ ok tt (splice at bs mem)
store_within bs at mem h = rw (le→leb (at + length bs) (length mem) h)

pub store_fault :
    (bs : List ℕ) (at : ℕ) (mem : Memory) → length mem < at + length bs → store bs at mem ≡ fault
store_fault bs at mem h = rw (gt→leb (at + length bs) (length mem) h)

pub within_bounds :
    {S A : Type 0} (buf : List ℕ) (at n : ℕ) (x : A) (s : S)
    → at + n ≤ length buf
    → within buf at n x s ≡ ok x s
within_bounds buf at n x s h = rw (le→leb (at + n) (length buf) h)

pub within_fault :
    {S A : Type 0} (buf : List ℕ) (at n : ℕ) (x : A) (s : S)
    → length buf < at + n
    → within buf at n x s ≡ fault
within_fault buf at n x s h = rw (gt→leb (at + n) (length buf) h)

pub within-eq-ok :
    {S A : Type 0} (buf : List ℕ) (at n : ℕ) (x : A) (s : S) {y : A} {s' : S}
    → within buf at n x s ≡ ok y s'
    → (at + n ≤ length buf) × (x ≡ y) × (s ≡ s')
within-eq-ok buf at n x s {y = y} {s' = s'} h = elim (Bool-cases (leb (at + n) (length buf))) [
  | inl e ↦ inner e (rw e at h)
  | inr e ↦ cc (rw e at h)
]
  where
    inner :
        leb (at + n) (length buf) ≡ true
        → ok x s ≡ ok y s'
        → (at + n ≤ length buf) × (x ≡ y) × (s ≡ s')
    inner e h = (leb→le (at + n) (length buf) e, cc, cc)
