-- ===== src/Tmp/Laws.antt =====
-- What the header of example/tmp/pgen_extend/tmp.h writes and reads, and into how much room it does not
-- write.
use libpgen.Base.{
  ℕ, ◌+◌, ◌-◌, ◌≤◌, ◌<◌, ◌≡◌, ◌≢◌, refl, ◌∙◌, ◌⊎◌, inl, inr, List, ◌++◌, arith, length, ltb, ltb→lt,
  ltb→ge, ge→ltb, lt→ltb, All, Bool-cases,
}
use libpgen.Base.Bytes.{htons, sub_size, sub_size_le}
use libpgen.Base.Run.{
  Exec, Run, >>=-fault, throw, fault, get, modify, throw_if, ◌>>=◌, ◌>>◌, >>=-ok,
}
use libpgen.Base.Splice.{splice}
use libpgen.Base.Text.{Text, until_zero}
use libpgen.Layout.{Memory, fetch, store, store_within, store_fault}
use libpgen.Tmp.{TmpHeader, TmpStruct, tmp_struct, htonl, write, length_of}

-- A header whose members fit, whose message has as many characters as `msglen` says, and none of them
-- zero.
pub record IsValid (h : TmpHeader) : Type 0 where
  pub id : h.id < 4294967296
  pub seq : h.seq < 65536
  pub msglen : h.msglen < 65536
  pub counted : length h.msg ≡ h.msglen
  pub text : All (λ b. b ≢ 0) h.msg

abbrev pub to_struct : TmpHeader → TmpStruct
to_struct h = record { id = htonl h.id; seq = htons h.seq; msglen = htons h.msglen }

-- The bytes of the header.
abbrev image : TmpHeader → List ℕ
image h = tmp_struct.put (to_struct h) ++ h.msg

-- The second half of `write`: the length is enough for the message, or it is not.
abbrev write_message : TmpHeader → ℕ → ℕ → Memory → Run Memory (Unit {0})
write_message h at len =
    throw_if (ltb (sub_size len 8) h.msglen) "pgen::tmp_header::write: buflen is too small"
    >> store h.msg (at + 8)

-- The first half, for a length of at least four.
write_head :
    (h : TmpHeader) (at len : ℕ) (mem : Memory)
    → 4 ≤ len
    → at + 8 ≤ length mem
    → write h at len mem ≡ write_message h at len (splice at (tmp_struct.put (to_struct h)) mem)
unfolding write
write_head h at len mem l room =
    let head = tmp_struct.put (to_struct h) in
    rw (ge→ltb len 4 l) (
      >>=-ok (store head at) (λ _. write_message h at len) mem
        (store_within head at mem (omega (arith, room))))

-- The second half of `read`.
abbrev read_message : List ℕ → ℕ → ℕ → Exec TmpHeader (Unit {0})
read_message buf at len = do
  h ← get
  throw_if (ltb (sub_size len 8) h.msglen) "pgen::tmp_header::write: buflen is too small"
  message ← fetch buf (at + 8) h.msglen
  modify (λ h. record h { msg = until_zero message })

own_fault :
    (h : TmpHeader) (mem : Memory)
    → h.msglen < 4
    → length mem ≡ 4 + h.msglen
    → write h 0 (4 + h.msglen) mem ≡ fault
unfolding write
own_fault h mem lt e =
    let head = tmp_struct.put (to_struct h) in
    rw (ge→ltb (4 + h.msglen) 4 (omega arith)) (
      >>=-fault (store head 0) (λ _. write_message h 0 (4 + h.msglen)) mem
        (store_fault head 0 mem (omega (arith, e, lt))))

own_throw :
    (h : TmpHeader) (mem : Memory)
    → h.msglen < 65536
    → 4 ≤ h.msglen
    → write_message h 0 (4 + h.msglen) mem
      ≡ throw "pgen::tmp_header::write: buflen is too small" mem
own_throw h mem small ge =
    rw
      (
        sub_size_le (4 + h.msglen) 8 (omega (arith, small)) (omega (arith, ge)),
        lt→ltb (4 + h.msglen - 8) h.msglen (omega (arith, ge)),
      )
      refl

-- `length` of a header is four less than what `write` needs. In a buffer of just that many bytes,
-- `write` of a message that is at least four long throws, after it wrote the struct, and of a shorter
-- one it writes past the end of the buffer.
pub write_own_length :
    (h : TmpHeader) (mem : Memory)
    → h.msglen < 65536
    → length mem ≡ length_of h
    → ((4 ≤ h.msglen)
        × (write h 0 (length_of h) mem
            ≡ throw "pgen::tmp_header::write: buflen is too small"
                (splice 0 (tmp_struct.put (to_struct h)) mem)))
      ⊎ ((h.msglen < 4) × (write h 0 (length_of h) mem ≡ fault))
unfolding length_of
write_own_length h mem small e =
    let head = tmp_struct.put (to_struct h) in
    let n = 4 + h.msglen in
    elim (Bool-cases (ltb h.msglen 4)) [
      | inl short ↦
          let lt = ltb→lt h.msglen 4 short in inr (lt, own_fault h mem lt (omega (arith, e)))
      | inr long ↦
          let ge = ltb→ge h.msglen 4 long in
          inl
            (ge, write_head h 0 n mem (omega arith) (omega (arith, ge, e)) ∙ own_throw h _ small ge)
    ]
