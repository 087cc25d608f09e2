-- ===== src/PcapngStream/Reads.antt =====
-- `read_block`: a block that the file has and the buffer takes.
use libpgen.Base.{
  ℕ, ◌+◌, ◌≤◌, ◌<◌, ◌≡◌, refl, sym, ap, ◌∙◌, List, [], ◌++◌, append-nil, append_assoc, arith,
  length, ◌==◌, not, length-append, le→leb, take-append, drop-append,
}
use libpgen.Base.Bytes.{sub_size, sub_size_le}
use libpgen.Base.Run.{Exec, ok, member, throw_if, >>=-ok, member-ok, pure, ◌>>=◌, ◌>>◌}
use libpgen.Base.Splice.{splice, length-splice, splice-after}
use libpgen.FileStream.{fread}
use libpgen.FileStream.Laws.{stream, not_zero, file_at}
use libpgen.Layout.{Memory, StandsAt-append, StandsAt-splice, cast-StandsAt, store, store_within}
use libpgen.Pcapng.{BlockHead, block_head}
use libpgen.PcapngStream.{Reading, read_into, head_of, body_room, read_block}

abbrev pub reading : List ℕ → List ℕ → ℕ → Memory → Reading
reading passed ahead room buffer = record {
  file = stream (file_at passed ahead room);
  buffer = buffer;
}

pub fread_lem :
    (n : ℕ) (xs rest passed : List ℕ) (room : ℕ)
    → n ≡ length xs
    → 0 < n
    → fread n (file_at passed (xs ++ rest) room) ≡ ((1, xs), file_at (passed ++ xs) rest room)
fread_lem n xs rest passed room e p = rw (
  not_zero n p,
  le→leb n (length (xs ++ rest)) (omega (arith, e, length-append xs rest)),
  take-append xs rest n (sym e),
  drop-append xs rest n (sym e),
)

pub read_into_lem :
    (at n : ℕ) (xs rest passed : List ℕ) (room : ℕ) (buffer : Memory)
    → n ≡ length xs
    → 0 < n
    → at + n ≤ length buffer
    → read_into at n (reading passed (xs ++ rest) room buffer)
      ≡ ok tt (reading (passed ++ xs) rest room (splice at xs buffer))
read_into_lem at n xs rest passed room buffer e p r =
    let count = throw_if (not (1 == 1)) "pgen::file_stream::fread::fread: " in
    let s : Reading = reading (passed ++ xs) rest room buffer in
    rw (fread_lem n xs rest passed room e p) (
      >>=-ok (member (λ (s : Reading). s.buffer) (λ b s. record s { buffer = b }) (store xs at))
        (λ _. count) s
        (member-ok (λ (s : Reading). s.buffer) (λ b s. record s { buffer = b }) (store xs at) s
          (store_within xs at buffer (omega (arith, e, r)))))

pub head_of_lem :
    (h : BlockHead) (ys passed rest : List ℕ) (room : ℕ) (buffer : Memory)
    → block_head.Fits h
    → length (block_head.put h ++ ys) ≤ length buffer
    → let s = reading passed rest room (splice 0 (block_head.put h ++ ys) buffer) in
      head_of s ≡ ok h s
head_of_lem h ys passed rest room buffer fits r =
    let b = splice 0 (block_head.put h ++ ys) buffer in
    cast-StandsAt block_head h b 0 (reading passed rest room b) fits
      (StandsAt-append (block_head.put h) ys b 0
        (StandsAt-splice (block_head.put h ++ ys) buffer 0 (omega (arith, r)))).0

-- What `read_block` does once it has read the head.
abbrev pub after_head : ℕ → Exec Reading ℕ
after_head total_length = do
  read_into 8 (body_room total_length)
  read_into (8 + body_room total_length) 4
  head ← head_of
  pure head.total_length

pub read_block-head :
    (h : BlockHead) (ys passed : List ℕ) (room : ℕ) (buffer : Memory)
    → block_head.Fits h
    → 8 ≤ length buffer
    → read_block (reading passed (block_head.put h ++ ys) room buffer)
      ≡ after_head h.total_length
          (reading (passed ++ block_head.put h) ys room (splice 0 (block_head.put h) buffer))
unfolding read_block
read_block-head h ys passed room buffer fits r =
    let head = block_head.put h in
    let p1 = passed ++ head in
    >>=-ok (read_into 0 8) _ (reading passed (head ++ ys) room buffer)
      (read_into_lem 0 8 head ys passed room buffer refl (omega arith) (omega (arith, r)))
    ∙ >>=-ok head_of _ (reading p1 ys room (splice 0 head buffer)) (
        ap (λ xs. head_of (reading p1 ys room (splice 0 xs buffer))) (sym (append-nil head))
        ∙ head_of_lem h [] p1 ys room buffer fits (omega (arith, r, length-append head []))
        ∙ ap (λ xs. ok h (reading p1 ys room (splice 0 xs buffer))) (append-nil head))

pub body_room_lem : (total n : ℕ) → total < 4294967296 → total ≡ 12 + n → body_room total ≡ n
body_room_lem total n small e =
    let s1 = sub_size_le total 8 (omega (arith, small)) (omega (arith, e)) in
    omega (
      arith,
      s1,
      sub_size_le (sub_size total 8) 4 (omega (arith, s1, small)) (omega (arith, s1, e)),
      e,
    )

-- A block in its three parts. It is in the buffer afterwards, and the file stands behind it.
pub read_block_lem :
    (h : BlockHead) (mid end rest passed : List ℕ) (room : ℕ) (buffer : Memory)
    → block_head.Fits h
    → h.total_length ≡ 12 + length mid
    → 0 < length mid
    → length end ≡ 4
    → h.total_length ≤ length buffer
    → let xs = (block_head.put h ++ mid) ++ end in
      read_block (reading passed (xs ++ rest) room buffer)
      ≡ ok h.total_length (reading (passed ++ xs) rest room (splice 0 xs buffer))
unfolding read_block
read_block_lem h mid end rest passed room buffer fits total some_body four room_for =
    let head = block_head.put h in
    let n = body_room h.total_length in
    let n_lem = body_room_lem h.total_length (length mid) fits.1 total in
    let two = length-append head mid in
    let b1 = splice 0 head buffer in
    let b2 = splice 0 (head ++ mid) buffer in
    let b3 = splice 0 ((head ++ mid) ++ end) buffer in
    let p1 = passed ++ head in
    ap (λ a. read_block (reading passed a room buffer))
      (append_assoc (head ++ mid) end rest ∙ append_assoc head mid (end ++ rest))
    ∙ read_block-head h (mid ++ (end ++ rest)) passed room buffer fits
        (omega (arith, total, room_for))
    ∙ >>=-ok (read_into 8 n) _ (reading p1 (mid ++ (end ++ rest)) room b1) (
        read_into_lem 8 n mid (end ++ rest) p1 room b1 n_lem (omega (arith, n_lem, some_body))
          (omega (arith, n_lem, total, room_for, length-splice 0 head buffer))
        ∙ ap (λ b. ok tt (reading (p1 ++ mid) (end ++ rest) room b))
            (splice-after 0 head mid buffer))
    ∙ >>=-ok (read_into (8 + n) 4) _ (reading (p1 ++ mid) (end ++ rest) room b2) (
        read_into_lem (8 + n) 4 end rest (p1 ++ mid) room b2 (sym four) (omega arith)
          (omega (arith, n_lem, total, room_for, length-splice 0 (head ++ mid) buffer))
        ∙ ap (λ b. ok tt (reading ((p1 ++ mid) ++ end) rest room b))
            (ap (λ (k : ℕ). splice k end b2) (omega (arith, n_lem, two))
              ∙ splice-after 0 (head ++ mid) end buffer))
    ∙ >>=-ok head_of _ (reading ((p1 ++ mid) ++ end) rest room b3) (
        ap (λ ys. head_of (reading ((p1 ++ mid) ++ end) rest room (splice 0 ys buffer)))
          (append_assoc head mid end)
        ∙ head_of_lem h (mid ++ end) ((p1 ++ mid) ++ end) rest room buffer fits (
            omega (
              arith,
              total,
              room_for,
              four,
              length-append head (mid ++ end),
              length-append mid end,
            ))
        ∙ ap (λ ys. ok h (reading ((p1 ++ mid) ++ end) rest room (splice 0 ys buffer)))
            (sym (append_assoc head mid end)))
    ∙ ap (λ ys. ok h.total_length (reading ys rest room b3))
        (ap (λ ys. ys ++ end) (append_assoc passed head mid)
          ∙ append_assoc passed (head ++ mid) end)
