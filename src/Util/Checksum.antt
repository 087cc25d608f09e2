-- ===== src/Util/Checksum.antt =====
-- When `checksum` is the Internet checksum of RFC 1071, and when it is not.
use libpgen.Base.{ℕ, ◌+◌, ◌*◌, ◌/◌, ◌%◌, ◌≤◌, ◌<◌, ◌≡◌, ◌≢◌, List, [], ◌∷◌, arith, length}
use libpgen.Base.Bytes.{IsBytes, to_u32}
use libpgen.Util.{read_as_little_endian, sum_words, checksum}

-- The sum of the 16-bit words, with no bound.
abbrev pub word_sum : List ℕ → ℕ
word_sum (a ∷ b ∷ rest) = a + b * 256 + word_sum rest
word_sum (a ∷ []) = a
word_sum [] = 0

-- Up to 65536 words the 32-bit sum does not wrap.
word_sum_bound : (bs : List ℕ) → IsBytes bs → 2 * word_sum bs ≤ 65536 * length bs
word_sum_bound [] p = omega arith
word_sum_bound (a ∷ []) p = omega arith
word_sum_bound (a ∷ b ∷ bs) (p, (q, ps)) = omega (arith, word_sum_bound bs ps)

sum_words_lem :
    (sum : ℕ) (bs : List ℕ) → sum + word_sum bs < 4294967296 → sum_words sum bs ≡ sum + word_sum bs
unfolding sum_words read_as_little_endian
sum_words_lem sum [] h = omega arith
sum_words_lem sum (a ∷ []) h = omega arith
sum_words_lem sum (a ∷ b ∷ bs) h =
    omega (arith, sum_words_lem (to_u32 (sum + (a + b * 256))) bs (omega arith))

-- Started from zero on a message of at most 131070 bytes, with no carry left after the carries are
-- added once, the checksum makes the one's complement sum of message and checksum zero, as RFC 1071
-- asks of a receiver's test.
pub checksum_verifies :
    (bs : List ℕ)
    → IsBytes bs
    → length bs ≤ 131070
    → word_sum bs / 65536 + word_sum bs % 65536 < 65536
    → (checksum 0 bs < 65536) × ((word_sum bs + checksum 0 bs) % 65535 ≡ 0)
unfolding checksum
checksum_verifies bs p l c =
    omega (arith, sum_words_lem 0 bs (omega (arith, word_sum_bound bs p)), word_sum_bound bs p)

-- With a carry left the checksum is wrong: the receiver's sum is 1 and not 0.
pub checksum_misses_carry :
    (bs : List ℕ)
    → IsBytes bs
    → length bs ≤ 131070
    → 65536 ≤ word_sum bs / 65536 + word_sum bs % 65536
    → (word_sum bs + checksum 0 bs) % 65535 ≡ 1
unfolding checksum
checksum_misses_carry bs p l c =
    omega (arith, sum_words_lem 0 bs (omega (arith, word_sum_bound bs p)), word_sum_bound bs p)

-- What `sum` holds at the start goes into the result: from any value but zero, up to the largest
-- one below which no carry comes in, the checksum of a message is another one.
pub checksum_depends_on_sum :
    (start : ℕ) (bs : List ℕ)
    → 0 < start
    → start + word_sum bs < 65536
    → checksum start bs ≢ checksum 0 bs
unfolding checksum
checksum_depends_on_sum start bs h k =
    omega (arith, sum_words_lem start bs (omega arith), sum_words_lem 0 bs (omega arith))
