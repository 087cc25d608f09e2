-- ===== src/MacAddress/Format.antt =====
-- The text of a MAC address: the format string of `_update_name` and of `set_str`.
use libpgen.Base.{
  ℕ, zero, suc, ◌+◌, ◌*◌, ◌≡◌, refl, List, [], ◌∷◌, ◌++◌, Option, none, some, arith, length,
}
use libpgen.Base.Bytes.{IsBytes}
use libpgen.Base.Text.{Text, hex2, scan_hex2, scan_char, scan_hex2-hex2}

infixl 5 ◌>>=◌
abbrev pub ◌>>=◌ : {A B : Type 0} → Option A → (A → Option B) → Option B
none >>= f = none
some a >>= f = f a

abbrev pub octets_text : List ℕ → Text
octets_text [] = []
octets_text (b ∷ bs) = b':' ∷ (hex2 b ++ octets_text bs)

-- sprintf(.., "%02x:%02x:%02x:%02x:%02x:%02x", _raw[0], ..)
unfoldable pub format : List ℕ → Text
format [] = []
format (b ∷ bs) = hex2 b ++ octets_text bs

abbrev pub scan_octets : ℕ → Text → Option (List ℕ)
scan_octets zero cs = some []
scan_octets (suc n) cs = do
  after ← scan_char b':' cs
  (b, rest) ← scan_hex2 after
  bs ← scan_octets n rest
  some (b ∷ bs)

-- sscanf(.., "%02x:%02x:%02x:%02x:%02x:%02x", ..), nothing where it converts less than all.
unfoldable pub scan : ℕ → Text → Option (List ℕ)
scan zero cs = some []
scan (suc n) cs = do (b, rest) ← scan_hex2 cs; bs ← scan_octets n rest; some (b ∷ bs)

scan_octets_lem : (bs : List ℕ) → IsBytes bs → scan_octets (length bs) (octets_text bs) ≡ some bs
unfolding scan_char
scan_octets_lem [] p = refl
scan_octets_lem (b ∷ bs) (p, ps) = rw (scan_hex2-hex2 b (octets_text bs) p, scan_octets_lem bs ps)

pub scan-format : (bs : List ℕ) → IsBytes bs → scan (length bs) (format bs) ≡ some bs
unfolding scan format
scan-format [] p = refl
scan-format (b ∷ bs) (p, ps) = rw (scan_hex2-hex2 b (octets_text bs) p, scan_octets_lem bs ps)

length-octets_text : (bs : List ℕ) → length (octets_text bs) ≡ 3 * length bs
unfolding hex2
length-octets_text [] = omega arith
length-octets_text (b ∷ bs) = omega (arith, length-octets_text bs)

-- `strlength` is 3 * length - 1.
pub length-format : (n : ℕ) (bs : List ℕ) → length bs ≡ suc n → length (format bs) ≡ 3 * n + 2
unfolding format hex2
length-format n [] h = absurd (omega arith)
length-format n (b ∷ bs) h = omega (arith, length-octets_text bs)

>>=-eq-some :
    {A B : Type 0} (o : Option A) (f : A → Option B) {b : B}
    → (o >>= f) ≡ some b
    → (a : A) × (o ≡ some a) × (f a ≡ some b)
>>=-eq-some none f h = cc
>>=-eq-some (some a) f h = (a, refl, h)

length_of_cons :
    {n : ℕ} (b : ℕ) (xs ys : List ℕ) → length xs ≡ n → some (b ∷ xs) ≡ some ys → length ys ≡ suc n
length_of_cons b xs ys h e = ground (arith, h)

length-scan_octets : (n : ℕ) (cs : Text) (bs : List ℕ) → scan_octets n cs ≡ some bs → length bs ≡ n
length-scan_octets zero cs bs h = ground arith
length-scan_octets (suc n) cs bs h =
    let (after, _, h') = >>=-eq-some (scan_char b':' cs) _ h in
    let (p, _, h'') = >>=-eq-some (scan_hex2 after) _ h' in
    let (xs, e, e') = >>=-eq-some (scan_octets n p.1) _ h'' in
    length_of_cons p.0 xs bs (length-scan_octets n p.1 xs e) e'

pub length-scan : (n : ℕ) (cs : Text) (bs : List ℕ) → scan n cs ≡ some bs → length bs ≡ n
unfolding scan
length-scan zero cs bs h = ground arith
length-scan (suc n) cs bs h =
    let (p, _, h') = >>=-eq-some (scan_hex2 cs) _ h in
    let (xs, e, e') = >>=-eq-some (scan_octets n p.1) _ h' in
    length_of_cons p.0 xs bs (length-scan_octets n p.1 xs e) e'
