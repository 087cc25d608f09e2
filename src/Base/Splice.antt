-- ===== src/Base/Splice.antt =====
-- Overwriting a run of a list in place: what a sequence of stores through a pointer does to memory.
use Prim.Native.Nat.{ℕ, zero, suc, ◌+◌, ◌≤◌}
use Prim.Native.Nat.add
use mathlib.Core.Path.{◌≡◌, refl, sym, ap, ◌∙◌}
use mathlib.Core.List.{List, [], ◌∷◌, ◌++◌}
use native.Mathlib.Omega.{arith}
use libpgen.Base.Lists.{length, take, drop, All, take-append}

module _ {ℓ} {A : Type ℓ} where
  -- `xs` put over `ms` from index `at` on; what would stand behind the end is lost.
  abbrev pub splice : ℕ → List A → List A → List A
  splice zero [] ms = ms
  splice zero (x ∷ xs) [] = []
  splice zero (x ∷ xs) (m ∷ ms) = x ∷ splice zero xs ms
  splice (suc at) xs [] = []
  splice (suc at) xs (m ∷ ms) = m ∷ splice at xs ms

  pub length-splice : (at : ℕ) (xs ms : List A) → length (splice at xs ms) ≡ length ms
  length-splice zero [] ms = refl
  length-splice zero (x ∷ xs) [] = refl
  length-splice zero (x ∷ xs) (m ∷ ms) = ap suc (length-splice zero xs ms)
  length-splice (suc at) xs [] = refl
  length-splice (suc at) xs (m ∷ ms) = ap suc (length-splice at xs ms)

  -- Everything overwritten.
  pub splice-all : (xs ms : List A) → length xs ≡ length ms → splice 0 xs ms ≡ xs
  splice-all [] [] e = refl
  splice-all [] (m ∷ ms) e = ground (arith, e)
  splice-all (x ∷ xs) [] e = ground (arith, e)
  splice-all (x ∷ xs) (m ∷ ms) e = ap (λ t. x ∷ t) (splice-all xs ms (omega (arith, e)))

  -- Right behind what was overwritten.
  pub splice-next :
      (xs ys ms : List A) → splice (length xs) ys (splice 0 xs ms) ≡ splice 0 (xs ++ ys) ms
  splice-next [] ys ms = refl
  splice-next (x ∷ xs) ys [] = refl
  splice-next (x ∷ xs) ys (m ∷ ms) = ap (λ t. x ∷ t) (splice-next xs ys ms)

  pub splice-nil : (at : ℕ) (ms : List A) → splice at [] ms ≡ ms
  splice-nil zero ms = refl
  splice-nil (suc at) [] = refl
  splice-nil (suc at) (m ∷ ms) = ap (λ t. m ∷ t) (splice-nil at ms)

  splice-empty : (at : ℕ) (xs : List A) → splice at xs [] ≡ []
  splice-empty zero [] = refl
  splice-empty zero (x ∷ xs) = refl
  splice-empty (suc at) xs = refl

  -- Two runs that touch are one.
  pub splice-splice :
      (at : ℕ) (xs ys ms : List A)
      → splice at xs (splice (at + length xs) ys ms) ≡ splice at (xs ++ ys) ms
  splice-splice zero [] ys ms = ap (λ (k : ℕ). splice k ys ms) (add.zero 0)
  splice-splice zero (x ∷ xs) ys [] = rw (add.zero, splice-empty (suc (length xs)) ys)
  splice-splice zero (x ∷ xs) ys (m ∷ ms) =
      rw add.zero (ap (λ t. x ∷ t) (rw add.zero at (splice-splice zero xs ys ms)))
  splice-splice (suc at) xs ys [] = rw add.suc
  splice-splice (suc at) xs ys (m ∷ ms) = rw add.suc (ap (λ t. m ∷ t) (splice-splice at xs ys ms))

  pub drop-splice :
      (at : ℕ) (xs ms : List A)
      → at + length xs ≤ length ms
      → drop at (splice at xs ms) ≡ xs ++ drop (at + length xs) ms
  drop-splice zero [] ms h = ap (λ (k : ℕ). drop k ms) (sym (add.zero 0))
  drop-splice zero (x ∷ xs) [] h = absurd (omega arith)
  drop-splice zero (x ∷ xs) (m ∷ ms) h =
      rw add.zero (ap (λ t. x ∷ t) (rw add.zero at (drop-splice zero xs ms (omega arith))))
  drop-splice (suc at) xs [] h = absurd (omega arith)
  drop-splice (suc at) xs (m ∷ ms) h = rw add.suc (drop-splice at xs ms (omega arith))

  -- So too when the first run is written first.
  pub splice-after :
      (at : ℕ) (xs ys ms : List A)
      → splice (at + length xs) ys (splice at xs ms) ≡ splice at (xs ++ ys) ms
  splice-after zero [] ys ms = ap (λ (k : ℕ). splice k ys ms) (add.zero 0)
  splice-after zero (x ∷ xs) ys [] = rw add.zero
  splice-after zero (x ∷ xs) ys (m ∷ ms) =
      rw add.zero (ap (λ t. x ∷ t) (rw add.zero at (splice-after zero xs ys ms)))
  splice-after (suc at) xs ys [] = rw add.suc
  splice-after (suc at) xs ys (m ∷ ms) = rw add.suc (ap (λ t. m ∷ t) (splice-after at xs ys ms))

  -- What was written at the front is the front.
  pub take-splice_self :
      (xs ms : List A) (n : ℕ) → length xs ≡ n → n ≤ length ms → take n (splice 0 xs ms) ≡ xs
  take-splice_self xs ms n e h =
      ap (take n) (drop-splice 0 xs ms (omega arith)) ∙ take-append xs _ n e

  pub take-splice : (at : ℕ) (xs ms : List A) → take at (splice at xs ms) ≡ take at ms
  take-splice zero xs ms = refl
  take-splice (suc at) xs [] = refl
  take-splice (suc at) xs (m ∷ ms) = ap (λ t. m ∷ t) (take-splice at xs ms)

  pub All-splice {κ} :
      (P : A → Type κ) (at : ℕ) (xs ms : List A) → All P xs → All P ms → All P (splice at xs ms)
  All-splice P zero [] ms p q = q
  All-splice P zero (x ∷ xs) [] p q = tt
  All-splice P zero (x ∷ xs) (m ∷ ms) (p, ps) (q, qs) = (p, All-splice P zero xs ms ps qs)
  All-splice P (suc at) xs [] p q = tt
  All-splice P (suc at) xs (m ∷ ms) p (q, qs) = (q, All-splice P at xs ms p qs)

  splice-take : (k : ℕ) (ms : List A) → splice 0 (take k ms) ms ≡ ms
  splice-take zero ms = refl
  splice-take (suc k) [] = refl
  splice-take (suc k) (m ∷ ms) = ap (λ t. m ∷ t) (splice-take k ms)

  -- What stands behind the run, put there again.
  pub splice-take_behind :
      (at k : ℕ) (xs ms : List A)
      → splice at (xs ++ take k (drop (length xs) (drop at ms))) ms ≡ splice at xs ms
  splice-take_behind zero k [] ms = splice-take k ms
  splice-take_behind zero k (x ∷ xs) [] = refl
  splice-take_behind zero k (x ∷ xs) (m ∷ ms) = ap (λ t. x ∷ t) (splice-take_behind zero k xs ms)
  splice-take_behind (suc at) k xs [] = refl
  splice-take_behind (suc at) k xs (m ∷ ms) = ap (λ t. m ∷ t) (splice-take_behind at k xs ms)
