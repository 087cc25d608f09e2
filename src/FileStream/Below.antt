-- ===== src/FileStream/Below.antt =====
-- How many bytes of the file code leaves.
use libpgen.Base.{
  not, ℕ, suc, ◌≡◌, ◌⊎◌, inl, inr, Bool-cases, ◌==◌, leb→le, length-drop, Option, some, none, [],
  ◌∷◌, ◌+◌, ◌≤◌, ◌<◌, List, arith, length, Bool, true, false, if◌then◌else◌, leb, String,
}
use libpgen.Base.Run.{Exec, Run, member, ok, throw, fault, pure, throw_if, ◌>>=◌, ◌>>◌}
use libpgen.Layout.{within}
use libpgen.FileStream
use libpgen.FileStream.{File, FileStream, fread, left, on_fd}
use libpgen.FileStream.Laws.{not_zero}

-- What returns leaves fewer than `n` bytes.
abbrev pub Below : {S A : Type 0} → (S → ℕ) → ℕ → Run S A → Type 0
Below size n (ok a s) = size s < n
Below size n (throw e s) = Unit {0}
Below size n fault = Unit {0}

module _ {S A : Type 0} (size : S → ℕ) where
  pub Below-bind :
      {B : Type 0} (n k : ℕ) (r : Run S A) (f : A → Exec S B) (s : S)
      → Below size n r
      → ((a : A) (s' : S) → size s' < n → Below size k (f a s'))
      → Below size k (((λ (_ : S). r) >>= f) s)
  Below-bind n k (ok a s') f s p q = q a s' p
  Below-bind n k (throw e s') f s p q = tt
  Below-bind n k fault f s p q = tt

  pub Below-within :
      (buf : List ℕ) (at m : ℕ) (x : A) (s : S) (n : ℕ)
      → size s < n
      → Below size n (within buf at m x s)
  Below-within buf at m x s n p = inner (leb (at + m) (length buf))
    where
      inner : (b : Bool) → Below size n (if b then ok x s else fault)
      inner true = p
      inner false = tt

  pub weaken_bound : (n k : ℕ) (r : Run S A) → n ≤ k → Below size n r → Below size k r
  weaken_bound n k (ok a s) h p = omega (arith, h, p)
  weaken_bound n k (throw e s) h p = tt
  weaken_bound n k fault h p = tt

  pub Below-if :
      (m o : Exec S A) (b : Bool) (n : ℕ) (s : S)
      → Below size n (m s)
      → Below size n (o s)
      → Below size n ((if b then m else o) s)
  Below-if m o true n s p q = p
  Below-if m o false n s p q = q

  pub Below-pure : (a : A) (s : S) (n : ℕ) → size s < n → Below size n (pure a s)
  Below-pure a s n p = p

pub Below-throw_if :
    {S : Type 0} (size : S → ℕ) (b : Bool) (e : String) (s : S) (n : ℕ)
    → size s < n
    → Below size n (throw_if b e s)
Below-throw_if size true e s n p = tt
Below-throw_if size false e s n p = p

-- A method of a member of the object.
pub Below-member :
    {S T A : Type 0} (size : S → ℕ) (size_of : T → ℕ) (view : S → T) (put : T → S → S) (n : ℕ)
    (r : Run T A) (s : S)
    → ((t : T) → size (put t s) ≡ size_of t)
    → Below size_of n r
    → Below size n (member view put (λ (_ : T). r) s)
Below-member size size_of view put n (ok a t) s e p = omega (arith, e t, p)
Below-member size size_of view put n (throw m t) s e p = tt
Below-member size size_of view put n fault s e p = tt

-- One that has nothing to do with the file.
pub Below-beside :
    {S T A : Type 0} (size : S → ℕ) (view : S → T) (put : T → S → S) (n : ℕ) (r : Run T A) (s : S)
    → ((t : T) → size (put t s) ≡ size s)
    → size s < n
    → Below size n (member view put (λ (_ : T). r) s)
Below-beside size view put n (ok a t) s e p = omega (arith, e t, p)
Below-beside size view put n (throw m t) s e p = tt
Below-beside size view put n fault s e p = tt

pub fread_le : (m : ℕ) (f : File) → length (fread m f).1.ahead ≤ length f.ahead
fread_le m f = elim (Bool-cases (m == 0)) [
  | inl e ↦ rw e (omega arith)
  | inr e ↦ elim (Bool-cases (leb m (length f.ahead))) [
    | inl h ↦ rw (e, h) (omega (arith, length-drop m f.ahead))
    | inr h ↦ rw (e, h) (omega (arith, length-drop (length f.ahead) f.ahead))
  ]
]

pub fread_lt :
    (m : ℕ) (f : File)
    → 0 < m
    → ((fread m f).0.0 ≡ 0) ⊎ (length (fread m f).1.ahead < length f.ahead)
fread_lt m f p = elim (Bool-cases (leb m (length f.ahead))) [
  | inl h ↦
      inr (
        rw (not_zero m p, h) (omega (arith, length-drop m f.ahead, leb→le m (length f.ahead) h, p)))
  | inr h ↦ inl (rw (not_zero m p, h))
]

pub feof-Below : (s : FileStream) → Below left (suc (left s)) (FileStream.feof s)
unfolding FileStream.feof
feof-Below s = inner s.fd
  where
    inner :
        (fd : Option File)
        → Below left (suc (left (record { fd = fd }))) (FileStream.feof (record { fd = fd }))
    inner none = tt
    inner (some f) = last f (fread 1 f).0.1
      where
        last :
            (f : File) (bs : List ℕ)
            → length
                (elim bs as (λ _. Bool × File) [ [] ↦ (true, f) | b ∷ bs ↦ (false, f) ]).1.ahead
              < suc (length f.ahead)
        last f [] = omega arith
        last f (b ∷ bs) = omega arith

-- What `read` does once `fread` has returned.
abbrev checked : (ℕ × List ℕ) → Exec FileStream (List ℕ)
checked p = throw_if (not (p.0 == 1)) "pgen::file_stream::fread::fread: " >> pure p.1

checked-Below : (p : ℕ × List ℕ) (s : FileStream) (n : ℕ) → left s < n → Below left n (checked p s)
checked-Below p s n h =
    Below-bind left n n (throw_if (not (p.0 == 1)) "pgen::file_stream::fread::fread: " s)
      (λ _. pure p.1) s (Below-throw_if left (not (p.0 == 1)) _ s n h) (λ _ s' q. q)

-- `read` leaves no more bytes, and fewer if it is to read one or more.
pub read-keeps : (m : ℕ) (s : FileStream) (n : ℕ) → left s < n → Below left n (FileStream.read m s)
unfolding FileStream.read
read-keeps m s n p = inner s.fd p
  where
    inner :
        (fd : Option File)
        → left (record { fd = fd }) < n
        → Below left n (FileStream.read m (record { fd = fd }))
    inner none q = tt
    inner (some f) q =
        checked-Below (fread m f).0 (record { fd = some (fread m f).1 }) n
          (omega (arith, fread_le m f, q))

pub read-Below : (m : ℕ) (s : FileStream) → 0 < m → Below left (left s) (FileStream.read m s)
unfolding FileStream.read
read-Below m s p = inner s.fd
  where
    inner :
        (fd : Option File)
        → Below left (left (record { fd = fd })) (FileStream.read m (record { fd = fd }))
    inner none = tt
    inner (some f) =
        let s' : FileStream = record { fd = some (fread m f).1 } in
        elim (fread_lt m f p) [
          | inl e ↦ rw e tt
          | inr h ↦ checked-Below (fread m f).0 s' (length f.ahead) h
        ]
