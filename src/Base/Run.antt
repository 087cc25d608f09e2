-- ===== src/Base/Run.antt =====
-- C++ code that changes an object and may throw: the object comes back beside the result, also
-- beside an exception, since what was assigned before a `throw` stays assigned.
use Prim.Native.String.{String}
use mathlib.Core.Path.{◌≡◌, refl, ◌∙◌}
use native.Mathlib.Omega.{arith}
use mathlib.Core.Bool.{Bool, true, false}

-- `throw` carries the text given to `pgen::exception`. `fault` is behaviour that C++ leaves
-- undefined: an access outside the bytes that exist.
pub data Run {ℓ} (S A : Type ℓ) : Type ℓ where
  ok : A → S → Run S A
  throw : String → S → Run S A
  fault : Run S A

abbrev pub Exec {ℓ} : Type ℓ → Type ℓ → Type ℓ
Exec S A = S → Run S A

module _ {ℓ} {S A : Type ℓ} where
  abbrev pub pure : A → Exec S A
  pure a s = ok a s

  abbrev pub raise : String → Exec S A
  raise e s = throw e s

  abbrev pub undefined : Exec S A
  undefined s = fault

module _ {ℓ} {S A B : Type ℓ} where
  infixl 5 ◌>>=◌ ◌>>◌
  abbrev pub ◌>>=◌ : Exec S A → (A → Exec S B) → Exec S B
  ◌>>=◌ m f s = elim (m s) [ ok a s' ↦ f a s' | throw e s' ↦ throw e s' | fault ↦ fault ]

  abbrev pub ◌>>◌ : Exec S A → Exec S B → Exec S B
  m >> k = m >>= λ _. k

  pub >>=-ok :
      (m : Exec S A) (f : A → Exec S B) (s : S) {a : A} {s' : S}
      → m s ≡ ok a s'
      → (m >>= f) s ≡ f a s'
  >>=-ok m f s e = rw (e, ◌>>=◌)

  pub >>=-throw :
      (m : Exec S A) (f : A → Exec S B) (s : S) {e : String} {s' : S}
      → m s ≡ throw e s'
      → (m >>= f) s ≡ throw e s'
  >>=-throw m f s e = rw (e, ◌>>=◌)

  pub >>=-fault : (m : Exec S A) (f : A → Exec S B) (s : S) → m s ≡ fault → (m >>= f) s ≡ fault
  >>=-fault m f s e = rw (e, ◌>>=◌)

  after : Run S A → (A → Exec S B) → Run S B
  after (ok a s') f = f a s'
  after (throw e s') f = throw e s'
  after fault f = fault

  after-eq-ok :
      (r : Run S A) (f : A → Exec S B) {b : B} {t : S}
      → after r f ≡ ok b t
      → (a : A) × (s' : S) × (r ≡ ok a s') × (f a s' ≡ ok b t)
  unfolding after
  after-eq-ok (ok a s') f h = (a, s', refl, h)
  after-eq-ok (throw e s') f h = cc
  after-eq-ok fault f h = cc

  after_lem : (m : Exec S A) (f : A → Exec S B) (s : S) → after (m s) f ≡ (m >>= f) s
  unfolding after
  after_lem m f s = ground arith

  -- A block that returns had a first step that returned.
  pub >>=-eq-ok :
      (m : Exec S A) (f : A → Exec S B) (s : S) {b : B} {t : S}
      → (m >>= f) s ≡ ok b t
      → (a : A) × (s' : S) × (m s ≡ ok a s') × (f a s' ≡ ok b t)
  >>=-eq-ok m f s h = after-eq-ok (m s) f (after_lem m f s ∙ h)

-- `if (bad) throw pgen::exception(text);`
abbrev pub throw_if {ℓ} : {S : Type ℓ} → Bool → String → Exec S (Unit {ℓ})
throw_if true e = raise e
throw_if false e = pure tt

pub throw_if-eq-ok {ℓ} :
    {S : Type ℓ} (b : Bool) (e : String) (s : S) {s' : S}
    → throw_if b e s ≡ ok tt s'
    → (b ≡ false) × (s ≡ s')
throw_if-eq-ok true e s h = cc
throw_if-eq-ok false e s h = (refl, cc)

abbrev pub modify {ℓ} : {S : Type ℓ} → (S → S) → Exec S (Unit {ℓ})
modify f s = ok tt (f s)

abbrev pub get {ℓ} : {S : Type ℓ} → Exec S S
get s = ok s s

-- A method call on a member of the object.
abbrev pub member {ℓ} : {S T A : Type ℓ} → (S → T) → (T → S → S) → Exec T A → Exec S A
member view put m s = elim (m (view s)) [
  | ok a t ↦ ok a (put t s)
  | throw e t ↦ throw e (put t s)
  | fault ↦ fault
]

pub member-ok {ℓ} :
    {S T A : Type ℓ} (view : S → T) (put : T → S → S) (m : Exec T A) (s : S) {a : A} {t : T}
    → m (view s) ≡ ok a t
    → member view put m s ≡ ok a (put t s)
member-ok view put m s e = rw (e, member)

pub member-throw {ℓ} :
    {S T A : Type ℓ} (view : S → T) (put : T → S → S) (m : Exec T A) (s : S) {e : String} {t : T}
    → m (view s) ≡ throw e t
    → member view put m s ≡ throw e (put t s)
member-throw view put m s e = rw (e, member)

pub member-fault {ℓ} :
    {S T A : Type ℓ} (view : S → T) (put : T → S → S) (m : Exec T A) (s : S)
    → m (view s) ≡ fault
    → member view put m s ≡ fault
member-fault view put m s e = rw (e, member)
