-- ===== src/PcapngStream/Taking.antt =====
-- `read_block` takes bytes off the file.
use libpgen.Base.{
  ℕ, suc, ◌+◌, ◌<◌, ◌≡◌, List, Option, some, none, arith, length, ◌==◌, not, inl, inr,
}
use libpgen.Base.Run.{Exec, Run, ok, throw, fault, pure, throw_if, member, ◌>>◌}
use libpgen.FileStream.{left, File, fread}
use libpgen.Layout.{Memory, store}
use libpgen.PcapngStream.{Reading, read_into, head_of, body_room, read_block}
use libpgen.FileStream.Below.{fread_le, fread_lt, Below, Below-bind, Below-within, Below-throw_if}

-- The bytes left to the stream that `read_block` reads.
abbrev pub left_of : Reading → ℕ
left_of s = left s.file

Below-store :
    (r : Run Memory (Unit {0})) (s : Reading) (n : ℕ)
    → left_of s < n
    → Below left_of n
        (member (λ (s : Reading). s.buffer) (λ b s. record s { buffer = b }) (λ _. r) s)
Below-store (ok a b) s n p = p
Below-store (throw e b) s n p = tt
Below-store fault s n p = tt

-- The rest of `read_into`, once `fread` has returned.
abbrev checked : ℕ → (ℕ × List ℕ) → Exec Reading (Unit {0})
checked at p =
    member (λ s. s.buffer) (λ b s. record s { buffer = b }) (store p.1 at)
    >> throw_if (not (p.0 == 1)) "pgen::file_stream::fread::fread: "

checked-Below :
    (at : ℕ) (p : ℕ × List ℕ) (s : Reading) (n : ℕ)
    → left_of s < n
    → Below left_of n (checked at p s)
checked-Below at p s n h =
    Below-bind left_of n n
      (member (λ (s : Reading). s.buffer) (λ b s. record s { buffer = b }) (store p.1 at) s)
      (λ _. throw_if (not (p.0 == 1)) "pgen::file_stream::fread::fread: ") s
      (Below-store (store p.1 at s.buffer) s n h)
      (λ _ s' q. Below-throw_if left_of (not (p.0 == 1)) _ s' n q)

-- No member read: `read` throws, if it comes back.
checked_none :
    (at : ℕ) (p : ℕ × List ℕ) (s : Reading) (n : ℕ) → p.0 ≡ 0 → Below left_of n (checked at p s)
checked_none at p s n e =
    Below-bind left_of (suc (left_of s)) n
      (member (λ (s : Reading). s.buffer) (λ b s. record s { buffer = b }) (store p.1 at) s)
      (λ _. throw_if (not (p.0 == 1)) "pgen::file_stream::fread::fread: ") s
      (Below-store (store p.1 at s.buffer) s (suc (left_of s)) (omega arith)) (λ _ s' q. rw e tt)

-- `read_into` leaves no more bytes, and fewer if it is to read one or more.
read_into-keeps :
    (at m : ℕ) (s : Reading) (n : ℕ) → left_of s < n → Below left_of n (read_into at m s)
read_into-keeps at m s n p = inner s.file.fd p
  where
    inner :
        (fd : Option File)
        → left (record { fd = fd }) < n
        → Below left_of n (read_into at m (record { file = record { fd = fd }; buffer = s.buffer }))
    inner none q = tt
    inner (some f) q =
        checked-Below at (fread m f).0
          (record { file = record { fd = some (fread m f).1 }; buffer = s.buffer }) n
          (omega (arith, fread_le m f, q))

read_into-Below : (at m : ℕ) (s : Reading) → 0 < m → Below left_of (left_of s) (read_into at m s)
read_into-Below at m s p = inner s.file.fd
  where
    inner :
        (fd : Option File)
        → Below left_of
            (left (record { fd = fd }))
            (read_into at m (record { file = record { fd = fd }; buffer = s.buffer }))
    inner none = tt
    inner (some f) =
        let s' : Reading = record {
          file = record { fd = some (fread m f).1 };
          buffer = s.buffer;
        } in
        elim (fread_lt m f p) [
          | inl e ↦ checked_none at (fread m f).0 s' (length f.ahead) e
          | inr h ↦ checked-Below at (fread m f).0 s' (length f.ahead) h
        ]

pub read_block-Below : (s : Reading) → Below left_of (left_of s) (read_block s)
unfolding read_block
read_block-Below s =
    let n = left_of s in
    let last = λ (s : Reading) (q : left_of s < n).
      Below-bind left_of n n (head_of s) (λ head. pure head.total_length) s
        (Below-within left_of s.buffer 0 8 _ s n q) (λ head s' q. q) in
    let third = λ (at : ℕ) (s : Reading) (q : left_of s < n).
      Below-bind left_of n n (read_into at 4 s) _ s (read_into-keeps at 4 s n q)
        (λ _ s' q. last s' q) in
    let second = λ (m : ℕ) (s : Reading) (q : left_of s < n).
      Below-bind left_of n n (read_into 8 (body_room m) s) _ s
        (read_into-keeps 8 (body_room m) s n q) (λ _ s' q. third (8 + body_room m) s' q) in
    Below-bind left_of n n (read_into 0 8 s) _ s (read_into-Below 0 8 s (omega arith)) (λ _ s1 q.
      Below-bind left_of n n (head_of s1) _ s1 (Below-within left_of s1.buffer 0 8 _ s1 n q)
        (λ head s2 q. second head.total_length s2 q))
