-- ===== src/Util/Dump.antt =====
-- pgen/util.h: the text that `hex` prints.
use libpgen.Base.{
  ℕ, zero, suc, ◌+◌, ◌-◌, ◌≤◌, ◌≡◌, refl, ap, List, [], ◌∷◌, ◌++◌, ◌&&◌, arith, length, length-drop,
  take, drop, leb, ◌==◌, if◌then◌else◌,
}
use libpgen.Base.Text.{Text, codes, hex2}

-- The bytes from index `i` of a row on: two digits each, and a gap in the middle.
abbrev pub hex_bytes : ℕ → List ℕ → Text
hex_bytes i [] = []
hex_bytes i (c ∷ cs) =
    (if i == 8 then b' ' ∷ [] else []) ++ (b' ' ∷ (hex2 c ++ hex_bytes (i + 1) cs))

-- The same bytes as characters, and a dot for what cannot be printed.
abbrev pub hex_chars : ℕ → List ℕ → Text
hex_chars i [] = []
hex_chars i (c ∷ cs) =
    (if i == 8 then b' ' ∷ b' ' ∷ [] else [])
    ++ ((if leb 0x20 c && leb c 0x7e then c else b'.') ∷ hex_chars (i + 1) cs)

-- Three spaces for each byte that the last row does not have.
abbrev pub hex_fill : ℕ → Text
hex_fill zero = []
hex_fill (suc n) = b' ' ∷ b' ' ∷ b' ' ∷ hex_fill n

-- A row: `row`, which is never changed, the bytes, and the characters.
abbrev pub hex_row : List ℕ → Text
hex_row bytes =
    codes "0000:   "
    ++ (hex_bytes 0 bytes
        ++ (hex_fill (16 - length bytes) ++ (codes "   " ++ (hex_chars 0 bytes ++ 10 ∷ []))))

-- The loop, for at most as many rows as the first number says.
unfoldable pub hex_rows : ℕ → List ℕ → Text
hex_rows zero bytes = []
hex_rows (suc n) [] = []
hex_rows (suc n) (c ∷ cs) = hex_row (take 16 (c ∷ cs)) ++ hex_rows n (drop 16 (c ∷ cs))

pub hex : List ℕ → Text
unfolding hex_rows
hex bytes = hex_rows (length bytes) bytes

-- As many rows as there are bytes are enough.
pub hex_rows_enough :
    (n m : ℕ) (bytes : List ℕ)
    → length bytes ≤ n
    → length bytes ≤ m
    → hex_rows n bytes ≡ hex_rows m bytes
unfolding hex_rows
hex_rows_enough zero zero bytes h k = refl
hex_rows_enough zero (suc m) [] h k = refl
hex_rows_enough zero (suc m) (c ∷ cs) h k = absurd (omega (arith, h))
hex_rows_enough (suc n) zero [] h k = refl
hex_rows_enough (suc n) zero (c ∷ cs) h k = absurd (omega (arith, k))
hex_rows_enough (suc n) (suc m) [] h k = refl
hex_rows_enough (suc n) (suc m) (c ∷ cs) h k =
    ap (λ t. hex_row (take 16 (c ∷ cs)) ++ t)
      (hex_rows_enough n m (drop 16 (c ∷ cs)) (omega (arith, h, length-drop 16 (c ∷ cs)))
        (omega (arith, k, length-drop 16 (c ∷ cs))))
