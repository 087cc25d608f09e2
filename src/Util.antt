-- ===== src/Util.antt =====
-- pgen/util.h: byte order helpers, the Internet checksum, and the digits that `bin` prints.
pub mod Checksum
pub mod Dump
use libpgen.Base.{
  zero, suc, ◌++◌, ◌==◌, if◌then◌else◌, ℕ, ◌+◌, ◌-◌, ◌*◌, ◌/◌, ◌%◌, List, [], ◌∷◌, get_or,
}
use libpgen.Base.Bytes.{to_u16, to_u32}
use libpgen.Base.Text.{Text}

-- `uint16_t(p[0]) | (uint16_t(p[1]) << 8)`, of bytes.
unfoldable pub read_as_little_endian : List ℕ → ℕ
read_as_little_endian p = get_or p 0 0 + get_or p 1 0 * 256

-- As the source has it: of the second and the third byte.
read_as_big_endian : List ℕ → ℕ
read_as_big_endian p = get_or p 1 0 + get_or p 2 0 * 256

-- `sum` over the `len` bytes of `data`, two at a time. A last odd byte is added as it is.
unfoldable pub sum_words : ℕ → List ℕ → ℕ
sum_words sum (a ∷ b ∷ rest) = sum_words (to_u32 (sum + read_as_little_endian (a ∷ b ∷ []))) rest
sum_words sum (a ∷ []) = to_u32 (sum + a)
sum_words sum [] = sum

-- The carries added once, and the complement.
unfoldable pub fold_carry : ℕ → ℕ
fold_carry sum = let overflowd = to_u16 (sum / 65536) in 65535 - to_u16 (sum % 65536 + overflowd)

-- `uint32_t sum;` has no initialiser: what it holds at the start is the parameter `sum`.
unfoldable pub checksum : ℕ → List ℕ → ℕ
unfolding sum_words read_as_little_endian fold_carry
checksum sum bytes = fold_carry (sum_words sum bytes)

-- The eight digits that `bin` puts into its buffer for a byte, the lowest bit first.
abbrev pub bits : ℕ → ℕ → Text
bits zero c = []
bits (suc n) c = (b'0' + c % 2) ∷ bits n (c / 2)

-- What `bin` prints from the byte at index `i` on.
abbrev pub bin_from : ℕ → List ℕ → Text
bin_from i [] = []
bin_from i (c ∷ cs) =
    bits 8 c ++ (b' ' ∷ ((if (i + 1) % 8 == 0 then 10 ∷ [] else []) ++ bin_from (i + 1) cs))

pub bin : List ℕ → Text
bin buffer = bin_from 0 buffer
