-- ===== src/Layout/Words.antt =====
-- Unsigned integers in memory, lowest byte first.
use libpgen.Base.{
  ℕ, ◌+◌, ◌*◌, ◌/◌, ◌%◌, ◌≤◌, ◌<◌, ◌≡◌, refl, List, [], ◌∷◌, ◌++◌, arith, length, take, get_or,
}
use libpgen.Base.Bytes.{IsBytes}
use libpgen.Layout.Defs.{Layout}

abbrev pub u8_put : ℕ → List ℕ
u8_put b = b % 256 ∷ []

abbrev pub u8_view : List ℕ → ℕ
u8_view bs = get_or bs 0 0

abbrev pub u16_put : ℕ → List ℕ
u16_put w = w % 256 ∷ w / 256 % 256 ∷ []

abbrev pub u16_view : List ℕ → ℕ
u16_view bs = get_or bs 0 0 + 256 * get_or bs 1 0

abbrev pub u32_put : ℕ → List ℕ
u32_put w = w % 256 ∷ w / 256 % 256 ∷ w / 65536 % 256 ∷ w / 16777216 % 256 ∷ []

abbrev pub u32_view : List ℕ → ℕ
u32_view bs = get_or bs 0 0 + 256 * get_or bs 1 0 + 65536 * get_or bs 2 0 + 16777216 * get_or bs 3 0

pub u8_put-IsBytes : (b : ℕ) → IsBytes (u8_put b)
u8_put-IsBytes b = omega arith

pub u8_view-put : (b : ℕ) (rest : List ℕ) → b < 256 → u8_view (u8_put b ++ rest) ≡ b
u8_view-put b rest h = omega arith

pub u8_put-view : (bs : List ℕ) → IsBytes bs → 1 ≤ length bs → u8_put (u8_view bs) ≡ take 1 bs
u8_put-view [] p h = absurd (omega arith)
u8_put-view (a ∷ bs) p h = ground arith

pub u8_view-lt : (bs : List ℕ) → IsBytes bs → 1 ≤ length bs → u8_view bs < 256
u8_view-lt [] p h = absurd (omega arith)
u8_view-lt (a ∷ bs) p h = omega arith

pub u16_put-IsBytes : (w : ℕ) → IsBytes (u16_put w)
u16_put-IsBytes w = omega arith

pub u16_view-put : (w : ℕ) (rest : List ℕ) → w < 65536 → u16_view (u16_put w ++ rest) ≡ w
u16_view-put w rest h = omega arith

pub u16_put-view : (bs : List ℕ) → IsBytes bs → 2 ≤ length bs → u16_put (u16_view bs) ≡ take 2 bs
u16_put-view [] p h = absurd (omega arith)
u16_put-view (a ∷ []) p h = absurd (omega arith)
u16_put-view (a ∷ b ∷ bs) p h = ground arith

pub u16_view-lt : (bs : List ℕ) → IsBytes bs → 2 ≤ length bs → u16_view bs < 65536
u16_view-lt [] p h = absurd (omega arith)
u16_view-lt (a ∷ []) p h = absurd (omega arith)
u16_view-lt (a ∷ b ∷ bs) p h = omega arith

pub u32_put-IsBytes : (w : ℕ) → IsBytes (u32_put w)
u32_put-IsBytes w = omega arith

pub u32_view-put : (w : ℕ) (rest : List ℕ) → w < 4294967296 → u32_view (u32_put w ++ rest) ≡ w
u32_view-put w rest h = omega arith

pub u32_put-view : (bs : List ℕ) → IsBytes bs → 4 ≤ length bs → u32_put (u32_view bs) ≡ take 4 bs
u32_put-view [] p h = absurd (omega arith)
u32_put-view (a ∷ []) p h = absurd (omega arith)
u32_put-view (a ∷ b ∷ []) p h = absurd (omega arith)
u32_put-view (a ∷ b ∷ c ∷ []) p h = absurd (omega arith)
u32_put-view (a ∷ b ∷ c ∷ d ∷ bs) p h = ground arith

pub u32_view-lt : (bs : List ℕ) → IsBytes bs → 4 ≤ length bs → u32_view bs < 4294967296
u32_view-lt [] p h = absurd (omega arith)
u32_view-lt (a ∷ []) p h = absurd (omega arith)
u32_view-lt (a ∷ b ∷ []) p h = absurd (omega arith)
u32_view-lt (a ∷ b ∷ c ∷ []) p h = absurd (omega arith)
u32_view-lt (a ∷ b ∷ c ∷ d ∷ bs) p h = omega arith

-- `uint8_t`
abbrev pub u8 : Layout ℕ
u8 = record {
  size = 1;
  Fits = λ b. b < 256;
  put = u8_put;
  view = u8_view;
  length-put = λ b h. refl;
  put-IsBytes = λ b h. u8_put-IsBytes b;
  view-put = u8_view-put;
  put-view = u8_put-view;
  view-Fits = u8_view-lt;
}

-- `uint16_t`
abbrev pub u16 : Layout ℕ
u16 = record {
  size = 2;
  Fits = λ w. w < 65536;
  put = u16_put;
  view = u16_view;
  length-put = λ w h. refl;
  put-IsBytes = λ w h. u16_put-IsBytes w;
  view-put = u16_view-put;
  put-view = u16_put-view;
  view-Fits = u16_view-lt;
}

-- `uint32_t`
abbrev pub u32 : Layout ℕ
u32 = record {
  size = 4;
  Fits = λ w. w < 4294967296;
  put = u32_put;
  view = u32_view;
  length-put = λ w h. refl;
  put-IsBytes = λ w h. u32_put-IsBytes w;
  view-put = u32_view-put;
  put-view = u32_put-view;
  view-Fits = u32_view-lt;
}

-- Two bit-fields of four bits in one byte; the first named is the lower half. An assignment to
-- such a field keeps the low four bits.
abbrev pub nibbles_put : ℕ × ℕ → List ℕ
nibbles_put n = (n.0 % 16 + 16 * (n.1 % 16)) ∷ []

abbrev pub nibbles_view : List ℕ → ℕ × ℕ
nibbles_view bs = (get_or bs 0 0 % 16, get_or bs 0 0 / 16)

pub nibbles_put-IsBytes : (n : ℕ × ℕ) → IsBytes (nibbles_put n)
nibbles_put-IsBytes n = omega arith

pub nibbles_view-put :
    (n : ℕ × ℕ) (rest : List ℕ) → (n.0 < 16) × (n.1 < 16) → nibbles_view (nibbles_put n ++ rest) ≡ n
nibbles_view-put (lo, hi) rest (h, k) =
    let e : (lo % 16 + 16 * (hi % 16)) % 16 ≡ lo = omega arith in
    let e' : (lo % 16 + 16 * (hi % 16)) / 16 ≡ hi = omega arith in λ i. (e i, e' i)

pub nibbles_put-view :
    (bs : List ℕ) → IsBytes bs → 1 ≤ length bs → nibbles_put (nibbles_view bs) ≡ take 1 bs
nibbles_put-view [] p h = absurd (omega arith)
nibbles_put-view (a ∷ bs) p h = ground arith

pub nibbles_view-lt :
    (bs : List ℕ)
    → IsBytes bs
    → 1 ≤ length bs
    → ((nibbles_view bs).0 < 16) × ((nibbles_view bs).1 < 16)
nibbles_view-lt [] p h = absurd (omega arith)
nibbles_view-lt (a ∷ bs) p h = omega arith

abbrev pub nibbles : Layout (ℕ × ℕ)
nibbles = record {
  size = 1;
  Fits = λ n. (n.0 < 16) × (n.1 < 16);
  put = nibbles_put;
  view = nibbles_view;
  length-put = λ n h. refl;
  put-IsBytes = λ n h. nibbles_put-IsBytes n;
  view-put = nibbles_view-put;
  put-view = nibbles_put-view;
  view-Fits = nibbles_view-lt;
}
