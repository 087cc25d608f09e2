-- ===== src/FileStream/Laws.antt =====
-- Writing to and reading from an open file.
use libpgen.Base.{
  ◌-◌, sym, ap, ◌∙◌, ◌++◌, append_assoc, append-nil, length-append, drop, drop-drop, ℕ, ◌≤◌, ◌<◌,
  ◌≡◌, refl, List, [], ◌∷◌, some, arith, length, take, le→leb, ◌==◌, false,
}
use libpgen.Base.Run.{ok, throw}
use libpgen.FileStream.{File, FileStream, advance, skip, write, read, feof}

-- A file at a position.
abbrev pub file_at : List ℕ → List ℕ → ℕ → File
file_at passed ahead room = record { passed = passed; ahead = ahead; room = room }

abbrev pub stream : File → FileStream
stream f = record { fd = some f }

-- Bytes that the device takes.
pub write_lem :
    (buf : List ℕ) (f : File)
    → 0 < length buf
    → length buf ≤ f.room
    → write buf (stream f) ≡ ok tt (stream (advance buf f))
unfolding write
write_lem [] f n r = absurd (omega (arith, n))
write_lem (b ∷ bs) f n r = rw (le→leb (length (b ∷ bs)) f.room r)

-- No bytes: `fwrite` writes no member, and `write` takes that for an error.
pub write_nil :
    (f : File) → write [] (stream f) ≡ throw "pgen::file_stream::fwirte::fwite: " (stream f)
unfolding write
write_nil f = refl

pub not_zero : (n : ℕ) → 0 < n → (n == 0) ≡ false
not_zero n p = ground (arith, p)

-- Bytes that the file has.
pub read_lem :
    (n : ℕ) (f : File)
    → 0 < n
    → n ≤ length f.ahead
    → read n (stream f) ≡ ok (take n f.ahead) (stream (skip n f))
unfolding read
read_lem n f p l = rw (not_zero n p, le→leb n (length f.ahead) l)

-- `feof` of a file says whether bytes are left, and leaves the file as it was.
pub feof_lem :
    (passed ahead : List ℕ) (room : ℕ)
    → let s = stream (record { passed = passed; ahead = ahead; room = room }) in
      feof s ≡ ok (length ahead == 0) s
unfolding feof
feof_lem passed [] room = refl
feof_lem passed (b ∷ bs) room =
    rw (le→leb 1 (length (b ∷ bs)) (omega arith), not_zero (length (b ∷ bs)) (omega arith))

pub advance-nil : (f : File) → f ≡ advance [] f
advance-nil f i = record {
  passed = sym (append-nil f.passed) i;
  ahead = f.ahead;
  room = ap (λ (k : ℕ). k) {x = f.room} {y = f.room - 0} (omega arith) i;
}

pub advance-advance : (xs ys : List ℕ) (f : File) → advance ys (advance xs f) ≡ advance (xs ++ ys) f
advance-advance xs ys f i = record {
  passed = append_assoc f.passed xs ys i;
  ahead =
      (drop-drop (length xs) (length ys) f.ahead
          ∙ ap (λ (k : ℕ). drop k f.ahead) (sym (length-append xs ys)))
        i;
  room =
      ap (λ (k : ℕ). k) {x = f.room - length xs - length ys} {y = f.room - length (xs ++ ys)}
        (omega (arith, length-append xs ys)) i;
}
