-- ===== src/Zundoko/Streak.antt =====
-- What server.cc is to answer, said without its states: by how many ZUN came right before.
use libpgen.Base.{
  ℕ, zero, suc, ◌+◌, ◌-◌, ◌*◌, ◌%◌, ◌≤◌, ◌<◌, ◌≡◌, ◌≢◌, ◌⊎◌, inl, inr, refl, sym, ap, ap₂, ◌∙◌,
  List, [], ◌∷◌, ◌++◌, Bool, true, false, Option, some, arith, length, take, drop, replicate,
  get_or, ltb, ◌==◌, ◌&&◌, if◌then◌else◌, Bool-cases, length-replicate, take-append, take-length,
  append_nil_of_length,
}
use libpgen.Base.Bytes.{ntohs}
use libpgen.Base.Splice.{splice, drop-splice}
use libpgen.Base.Text.{Text}
use libpgen.Zundoko.{zun, doko, kiyoshi, type_of, set_type, c_string}
use libpgen.Zundoko.Server.{ZdState, none, z, zz, zzz, zzzz, turn}

-- How many of the newest datagrams say ZUN. The newest stands first.
unfoldable pub streak : List (List ℕ) → ℕ
streak [] = 0
streak (d ∷ past) = let rest = streak past in if type_of d == zun then suc rest else 0

-- The answer to `d` after the datagrams `past`: `d`, or `d` with its type set to KIYOSHI.
unfoldable pub answer : List (List ℕ) → List ℕ → List ℕ
unfolding streak
answer past d =
    if type_of d == doko && streak past % 5 == 4
    then take (length d) (0 ∷ kiyoshi ∷ drop 2 d)
    else d

-- How many ZUN a state stands for.
unfoldable pub index : ZdState → ℕ
index none = 0
index z = 1
index zz = 2
index zzz = 3
index zzzz = 4

index-turn :
    (s : ZdState) (type : ℕ) (buffer : List ℕ)
    → index (turn s type buffer).0 ≡ (if type == zun then (index s + 1) % 5 else 0)
unfolding index turn
index-turn s type buffer = ground arith

buffer-turn :
    (s : ZdState) (type : ℕ) (buffer : List ℕ)
    → (turn s type buffer).1
      ≡ (if type == doko && index s == 4 then set_type kiyoshi buffer else buffer)
unfolding index turn
buffer-turn s type buffer = ground arith

-- The buffer after a datagram of `n` bytes at most was put at its front.
abbrev pub filled : ℕ → List ℕ → List ℕ
filled n d = splice 0 d (replicate n 0)

drop-replicate : (m n : ℕ) → drop {A = ℕ} m (replicate n 0) ≡ replicate (n - m) 0
drop-replicate zero n = ap (λ (k : ℕ). replicate k 0) (omega arith)
drop-replicate (suc m) zero = let e : 0 ≡ 0 - suc m = omega arith in ap (λ (k : ℕ). replicate k 0) e
drop-replicate (suc m) (suc n) =
    let e : n - m ≡ suc n - suc m = omega arith in
    drop-replicate m n ∙ ap (λ (k : ℕ). replicate k 0) e

pub filled_lem : (n : ℕ) (d : List ℕ) → length d ≤ n → filled n d ≡ d ++ replicate (n - length d) 0
filled_lem n d h =
    drop-splice 0 d (replicate n 0) (rw (length-replicate {A = ℕ} n 0) (omega arith))
    ∙ ap (λ (k : ℕ). d ++ drop k (replicate n 0)) (omega arith)
    ∙ ap (λ t. d ++ t) (drop-replicate (length d) n)

get_or-replicate : (n i : ℕ) → get_or {A = ℕ} (replicate n 0) i 0 ≡ 0
get_or-replicate zero i = refl
get_or-replicate (suc n) zero = refl
get_or-replicate (suc n) (suc i) = get_or-replicate n i

-- A byte of the buffer is that of the datagram, and 0 behind its end.
get_or-append : (d : List ℕ) (n i : ℕ) → get_or (d ++ replicate n 0) i 0 ≡ get_or d i 0
get_or-append [] n i = get_or-replicate n i
get_or-append (b ∷ d) n zero = refl
get_or-append (b ∷ d) n (suc i) = get_or-append d n i

pub type_of-filled : (n : ℕ) (d : List ℕ) → length d ≤ n → type_of (filled n d) ≡ type_of d
unfolding type_of
type_of-filled n d h = rw (filled_lem n d h) (
    ap₂ (λ (x y : ℕ). ntohs (x + 256 * y)) (get_or-append d (n - length d) 0)
      (get_or-append d (n - length d) 1))

pub set_type-filled :
    (n : ℕ) (d : List ℕ)
    → length d ≤ n
    → take (length d) (set_type kiyoshi (filled n d)) ≡ take (length d) (0 ∷ kiyoshi ∷ drop 2 d)
unfolding set_type libpgen.Base.Bytes.htons
set_type-filled n [] h = refl
set_type-filled zero (b ∷ []) h = absurd (omega arith)
set_type-filled (suc n) (b ∷ []) h = refl
set_type-filled n (a ∷ b ∷ d) h = rw (filled_lem n (a ∷ b ∷ d) h) (
    ap (λ t. 0 ∷ kiyoshi ∷ t)
      (take-append d _ (length d) refl ∙ sym (take-length d (length d) (omega arith))))

-- The answer is what the server sends back of its buffer.
pub take-turn :
    (n : ℕ) (s : ZdState) (past : List (List ℕ)) (d : List ℕ)
    → length d ≤ n
    → index s ≡ streak past % 5
    → take (length d) (turn s (type_of (filled n d)) (filled n d)).1 ≡ answer past d
unfolding answer
take-turn n s past d h e =
    rw (buffer-turn s (type_of (filled n d)) (filled n d), type_of-filled n d h, e)
      (elim (Bool-cases (type_of d == doko && streak past % 5 == 4)) [
        | inl p ↦ rw p (set_type-filled n d h)
        | inr p ↦ rw p (ap (take (length d)) (filled_lem n d h) ∙ take-append d _ (length d) refl)
      ])

streak_next :
    (d : List ℕ) (past : List (List ℕ))
    → (if type_of d == zun then (streak past % 5 + 1) % 5 else 0) ≡ streak (d ∷ past) % 5
unfolding streak
streak_next d past = elim (Bool-cases (type_of d == zun)) [
  | inl p ↦ rw p (omega arith)
  | inr p ↦ rw p refl
]

pub index-turn_lem :
    (n : ℕ) (s : ZdState) (past : List (List ℕ)) (d : List ℕ)
    → length d ≤ n
    → index s ≡ streak past % 5
    → index (turn s (type_of (filled n d)) (filled n d)).0 ≡ streak (d ∷ past) % 5
index-turn_lem n s past d h e =
    rw (index-turn s (type_of (filled n d)) (filled n d), type_of-filled n d h, e)
      (streak_next d past)

-- A text that ends in zeros is printed up to a zero.
c_string-drop :
    (i k : ℕ) (d : List ℕ)
    → i < length d + suc k
    → (t : Text) × (c_string (drop i (d ++ replicate (suc k) 0)) ≡ some t)
unfolding c_string
c_string-drop zero k [] h = ([], refl)
c_string-drop zero k (b ∷ d) h =
    let (t, e) = c_string-drop zero k d (omega arith) in
    elim (Bool-cases (b == 0)) [ inl p ↦ ([], rw p refl) | inr p ↦ (b ∷ t, rw (e, p) refl) ]
c_string-drop (suc i) zero [] h = absurd (omega arith)
c_string-drop (suc i) (suc k) [] h = c_string-drop i k [] (omega arith)
c_string-drop (suc i) k (b ∷ d) h = c_string-drop i k d (omega arith)

pub c_string-filled :
    (n i : ℕ) (d : List ℕ)
    → length d < n
    → i < n
    → (t : Text) × (c_string (drop i (filled n d)) ≡ some t)
c_string-filled zero i d h g = absurd (omega arith)
c_string-filled (suc m) i d h g =
    let more : suc m - length d ≡ suc (m - length d) = omega arith in
    let filled_e = filled_lem (suc m) d (omega arith) ∙ ap (λ (k : ℕ). d ++ replicate k 0) more in
    rw filled_e (c_string-drop i (m - length d) d (omega arith))
