-- ===== src/Base/Text.antt =====
-- Text as a list of character codes, and the conversions of `printf` and `scanf` that the library
-- uses, after the C standard.
use libpgen.Base.Tests.{ltb, leb, ◌==◌, if◌then◌else◌}
use libpgen.Base.Lists.{length, replicate}
use Prim.Native.Nat.{ℕ, zero, suc, ◌+◌, ◌-◌, ◌*◌, ◌/◌, ◌%◌, ◌<◌}
use Prim.Native.Char.{code}
use Prim.Native.String.{String}
use mathlib.Core.Path.{◌≡◌}
use mathlib.Core.Bool.{Bool, true, false, ◌&&◌, ◌||◌}
use mathlib.Core.Option.{Option, none, some}
use mathlib.Core.List.{List, [], ◌∷◌, ◌++◌}
use native.Mathlib.Omega.{arith}
use libpgen.Base.Int.{ℤ, pos, negsuc, negated}

abbrev pub Text : Type 0
Text = List ℕ

-- The digit `n` of a `%x` conversion.
unfoldable pub hex_digit : ℕ → ℕ
hex_digit n = if ltb n 10 then b'0' + n else b'a' + (n - 10)

-- "%02x" of a byte.
unfoldable pub hex2 : ℕ → Text
hex2 b = hex_digit (b / 16) ∷ hex_digit (b % 16) ∷ []

-- "%04x" of a `uint16_t`.
unfoldable pub hex4 : ℕ → Text
hex4 w =
    hex_digit (w / 4096)
    ∷ hex_digit (w / 256 % 16)
    ∷ hex_digit (w / 16 % 16)
    ∷ hex_digit (w % 16)
    ∷ []

-- "%d" of a `uint8_t`, which has three digits at most.
unfoldable pub decimal : ℕ → Text
decimal b =
    if ltb b 10
    then (b'0' + b) ∷ []
    else if ltb b 100
    then (b'0' + b / 10) ∷ (b'0' + b % 10) ∷ []
    else (b'0' + b / 100) ∷ (b'0' + b / 10 % 10) ∷ (b'0' + b % 10) ∷ []

-- "%x" of a number below 16 ^ `fuel`.
abbrev pub hex_digits : ℕ → ℕ → Text
hex_digits zero n = []
hex_digits (suc fuel) n =
    let rest = hex_digits fuel (n / 16) in
    if ltb n 16 then hex_digit n ∷ [] else rest ++ hex_digit (n % 16) ∷ []

-- Zeros in front, up to `width` characters.
abbrev pub padded : ℕ → Text → Text
padded width text = replicate (width - length text) b'0' ++ text

-- "%0nx" of a `uint32_t`, where `width` is the n.
unfoldable pub hex_wide : ℕ → ℕ → Text
hex_wide width n = padded width (hex_digits 8 n)

-- "%d" of a number below 10 ^ `fuel`.
abbrev pub digits : ℕ → ℕ → Text
digits zero n = []
digits (suc fuel) n =
    let rest = digits fuel (n / 10) in
    if ltb n 10 then (b'0' + n) ∷ [] else rest ++ (b'0' + n % 10) ∷ []

-- "%u" of a `uint32_t`, which has ten digits at most, and "%d" of a `uint16_t`.
unfoldable pub decimal32 : ℕ → Text
decimal32 n = digits 10 n

-- A C string: the characters before the first zero, one of which stands behind them.
abbrev pub until_zero : List ℕ → Text
until_zero [] = []
until_zero (b ∷ bs) = if b == 0 then [] else b ∷ until_zero bs

-- A string literal.
abbrev pub codes : String → Text
codes String.[] = []
codes (String.◌∷◌ c s) = code c ∷ codes s

-- What a hexadecimal digit stands for.
unfoldable pub hex_value : ℕ → Option ℕ
hex_value c =
    if leb b'0' c && leb c b'9'
    then some (c - b'0')
    else if leb b'a' c && leb c b'f'
    then some (c - b'a' + 10)
    else if leb b'A' c && leb c b'F'
    then some (c - b'A' + 10)
    else none

-- `isspace`
abbrev pub is_space : ℕ → Bool
is_space c = c == 32 || leb 9 c && leb c 13

abbrev pub skip_space : Text → Text
skip_space [] = []
skip_space (c ∷ cs) = if is_space c then skip_space cs else c ∷ cs

-- A second digit after the digit `c` of value `v`. "0x" is a prefix with no digit behind it.
abbrev pub second_digit : ℕ → ℕ → Text → Option (ℕ × Text)
second_digit c v [] = some (v, [])
second_digit c v (d ∷ cs) =
    if c == b'0' && (d == b'x' || d == b'X')
    then none
    else elim (hex_value d) [ some w ↦ some (16 * v + w, cs) | none ↦ some (v, d ∷ cs) ]

-- One digit behind a sign; `negative` wraps as `unsigned int` does.
abbrev pub signed_digit : Bool → Text → Option (ℕ × Text)
signed_digit negative [] = none
signed_digit negative (d ∷ cs) = elim (hex_value d) [
  | some w ↦ some (if negative then (4294967296 - w) % 4294967296 else w, cs)
  | none ↦ none
]

abbrev pub scan_digits : Text → Option (ℕ × Text)
scan_digits [] = none
scan_digits (c ∷ cs) =
    if c == b'-'
    then signed_digit true cs
    else if c == b'+'
    then signed_digit false cs
    else elim (hex_value c) [ some v ↦ second_digit c v cs | none ↦ none ]

-- "%02x" of `sscanf`: white space, then at most two characters of a hexadecimal number.
unfoldable pub scan_hex2 : Text → Option (ℕ × Text)
scan_hex2 cs = scan_digits (skip_space cs)

-- The number that decimal digits write, after the number `n`.
abbrev pub decimal_value : ℕ → Text → ℕ
decimal_value n [] = n
decimal_value n (c ∷ cs) =
    let more = decimal_value (10 * n + (c - b'0')) cs in
    if leb b'0' c && leb c b'9' then more else n

-- `atoi`, of a number that an `int` holds.
unfoldable pub atoi : Text → ℤ
atoi text = elim (skip_space text) [
  | [] ↦ pos 0
  | c ∷ cs ↦
      if c == b'-'
      then negated (decimal_value 0 cs)
      else if c == b'+'
      then pos (decimal_value 0 cs)
      else pos (decimal_value 0 (c ∷ cs))
]

-- "%d" of an `int`.
unfoldable pub int_text : ℤ → Text
unfolding decimal32
int_text (pos n) = decimal32 n
int_text (negsuc n) = b'-' ∷ decimal32 (n + 1)

-- A character of a `sscanf` format that stands for itself.
unfoldable pub scan_char : ℕ → Text → Option Text
scan_char c [] = none
scan_char c (d ∷ cs) = if c == d then some cs else none

pub hex_value-hex_digit : (n : ℕ) → n < 16 → hex_value (hex_digit n) ≡ some n
unfolding hex_value hex_digit
hex_value-hex_digit n h = ground arith

pub hex_digit_ne_x : (n : ℕ) → n < 16 → (hex_digit n == b'x' || hex_digit n == b'X') ≡ false
unfolding hex_digit
hex_digit_ne_x n h = ground arith

pub hex_digit_plain :
    (n : ℕ)
    → n < 16
    → (is_space (hex_digit n) ≡ false)
      × ((hex_digit n == b'-') ≡ false)
      × ((hex_digit n == b'+') ≡ false)
unfolding hex_digit
hex_digit_plain n h = ground arith

-- What "%02x" printed, "%02x" reads back.
pub scan_hex2-hex2 : (b : ℕ) (cs : Text) → b < 256 → scan_hex2 (hex2 b ++ cs) ≡ some (b, cs)
unfolding scan_hex2 hex2
scan_hex2-hex2 b cs h = ground (
  arith,
  hex_digit_plain (b / 16) (omega arith),
  hex_value-hex_digit (b / 16) (omega arith),
  hex_digit_ne_x (b % 16) (omega arith),
  hex_value-hex_digit (b % 16) (omega arith),
)
