-- ===== src/Base/Bytes.antt =====
-- Bytes and machine words.
use Prim.Native.Nat.{ℕ, ◌+◌, ◌-◌, ◌*◌, ◌/◌, ◌%◌, ◌^◌, ◌<◌, ◌≤◌}
use mathlib.Core.Path.{◌≡◌}
use mathlib.Core.List.{List}
use native.Mathlib.Omega.{arith}
use libpgen.Base.Lists.{All, length}

abbrev pub IsByte : ℕ → Type 0
IsByte b = b < 256

abbrev pub IsBytes : List ℕ → Type 0
IsBytes = All IsByte

abbrev pub IsWord : ℕ → Type 0
IsWord w = w < 65536

-- A `uint16_t[n]`.
abbrev pub WordsFit : ℕ → List ℕ → Type 0
WordsFit n ws = (length ws ≡ n) × All IsWord ws

-- The casts to `uint8_t`, `uint16_t` and `uint32_t`.
abbrev pub to_u8 : ℕ → ℕ
to_u8 n = n % 256

abbrev pub to_u16 : ℕ → ℕ
to_u16 n = n % 65536

abbrev pub to_u32 : ℕ → ℕ
to_u32 n = n % 4294967296

-- `size_t` is 64 bits wide, and its subtraction wraps.
abbrev pub size_mod : ℕ
size_mod = 2 ^ 64

unfoldable pub sub_size : ℕ → ℕ → ℕ
sub_size a b = (a + size_mod - b) % size_mod

pub sub_size_le : (a b : ℕ) → a < size_mod → b ≤ a → sub_size a b ≡ a - b
unfolding sub_size
sub_size_le a b h k = omega arith

-- `htons` and `ntohs` on a little-endian host: the two bytes of a `uint16_t` change places.
unfoldable pub htons : ℕ → ℕ
htons x = x % 256 * 256 + x / 256 % 256

unfoldable pub ntohs : ℕ → ℕ
ntohs x = x % 256 * 256 + x / 256 % 256

pub ntohs-htons : (x : ℕ) → x < 65536 → ntohs (htons x) ≡ x
unfolding ntohs htons
ntohs-htons x h = omega arith

pub htons-ntohs : (x : ℕ) → x < 65536 → htons (ntohs x) ≡ x
unfolding ntohs htons
htons-ntohs x h = omega arith

pub htons-lt : (x : ℕ) → htons x < 65536
unfolding htons
htons-lt x = omega arith

pub ntohs-lt : (x : ℕ) → ntohs x < 65536
unfolding ntohs
ntohs-lt x = omega arith
