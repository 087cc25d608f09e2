-- ===== src/FileStream.antt =====
-- pgen/io/file_stream.h: the class `file_stream`, over the C library's files. A file is the bytes
-- before its position, the bytes behind it, and how many more the device takes.
pub mod Laws
pub mod Below
use libpgen.Base.{
  ℕ, ◌-◌, List, [], ◌∷◌, ◌++◌, Bool, true, false, not, Option, none, some, length, take, drop, leb,
  ◌==◌, if◌then◌else◌,
}
use libpgen.Base.Run.{Exec, ok, throw, fault, raise, pure, modify, throw_if, get, ◌>>=◌, ◌>>◌}

pub record File : Type 0 where
  pub passed : List ℕ
  pub ahead : List ℕ
  pub room : ℕ

pub record FileStream : Type 0 where
  pub fd : Option File

-- The file with `buf` written at its position.
abbrev pub advance : List ℕ → File → File
advance buf f = record {
  passed = f.passed ++ buf;
  ahead = drop (length buf) f.ahead;
  room = f.room - length buf;
}

-- `::fwrite(buf, buflen, 1, fd)`: the number of members written. A member of no bytes is none.
abbrev pub fwrite : List ℕ → File → ℕ × File
fwrite [] f = (0, f)
fwrite (b ∷ bs) f =
    if leb (length (b ∷ bs)) f.room
    then (1, advance (b ∷ bs) f)
    else (0, advance (take f.room (b ∷ bs)) f)

-- The file with its position moved on.
abbrev pub skip : ℕ → File → File
skip n f = record { passed = f.passed ++ take n f.ahead; ahead = drop n f.ahead; room = f.room }

-- `::fread(buf, buflen, 1, fd)`: the number of members read, and the bytes.
abbrev pub fread : ℕ → File → (ℕ × List ℕ) × File
fread n f =
    if n == 0
    then ((0, []), f)
    else if leb n (length f.ahead)
    then ((1, take n f.ahead), skip n f)
    else ((0, f.ahead), skip (length f.ahead) f)

-- The bytes of the file that are left.
abbrev pub left : FileStream → ℕ
left s = elim s.fd [ none ↦ 0 | some f ↦ length f.ahead ]

-- A call on `_fd`, which must not be null.
abbrev pub on_fd : {A : Type 0} → (File → A × File) → Exec FileStream A
on_fd call s = elim s.fd [ none ↦ fault | some f ↦ ok (call f).0 (record { fd = some (call f).1 }) ]

-- The parameter is what `::fopen` returns. The error's text goes on with the name.
unfoldable pub fopen : Option File → Exec FileStream (Unit {0})
fopen opened s = elim opened [
  | none ↦ throw "pgen::file_stream::fopen:" (record { fd = none })
  | some f ↦ ok tt (record { fd = some f })
]

unfoldable pub fclose : Exec FileStream (Unit {0})
fclose = modify (λ s. record { fd = none })

unfoldable pub write : List ℕ → Exec FileStream (Unit {0})
write buf = do
  number_of_write ← on_fd (fwrite buf)
  throw_if (not (number_of_write == 1)) "pgen::file_stream::fwirte::fwite: "

-- It returns what stands in the buffer.
unfoldable pub read : ℕ → Exec FileStream (List ℕ)
read buflen = do
  p ← on_fd (fread buflen)
  throw_if (not (p.0 == 1)) "pgen::file_stream::fread::fread: "
  pure p.1

-- `feof`, of a stream that was opened to read: one byte is read and, if there was one, put back.
unfoldable pub feof : Exec FileStream Bool
feof = on_fd (λ f. elim (fread 1 f).0.1 [ [] ↦ (true, f) | b ∷ bs ↦ (false, f) ])

-- The result of `::fflush` is looked at, but the exception made of an error is not thrown.
unfoldable pub fflush : Exec FileStream (Unit {0})
fflush = on_fd (λ f. (tt, f))

pub construct : FileStream
construct = record { fd = none }

pub destruct : Exec FileStream (Unit {0})
unfolding fclose
destruct = fclose

pub close : Exec FileStream (Unit {0})
unfolding fclose
close = fclose

pub eof : Exec FileStream Bool
unfolding feof
eof = feof

pub flush : Exec FileStream (Unit {0})
unfolding fflush
flush = fflush
