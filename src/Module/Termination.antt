-- ===== src/Module/Termination.antt =====
-- `check` of any file comes to an end: each round that does not throw takes bytes off the file.
use libpgen.Base.{
  ℕ, zero, suc, ◌+◌, ◌<◌, ◌≡◌, refl, List, Bool, true, false, Option, some, none, arith, length,
  ltb, if◌then◌else◌,
}
use libpgen.Base.Run.{Exec, Run, ok, throw, fault, pure, undefined, throw_if, ◌>>=◌, ◌>>◌}
use libpgen.FileStream
use libpgen.FileStream.{File, FileStream, left}
use libpgen.FileStream.Below.{
  Below, Below-bind, Below-throw_if, Below-member, Below-beside, read-keeps, read-Below, feof-Below,
}
use libpgen.Module.{
  Checking, Outcome, on_handle, on_pack, compare_packet, report, check_round, increment, check_loop,
  check,
}
use libpgen.Packet.{Packet, analyze, compile}
use libpgen.PcapStream.{PcapStream, pcap_packet_header, on_file, recv, open_stream, pcap_read}

abbrev left_in : PcapStream → ℕ
left_in s = left s.file

-- The bytes left to the stream that `check` reads.
abbrev pub left_to : Checking → ℕ
left_to s = left_in s.handle

on_file-Below :
    {A : Type 0} (n : ℕ) (m : Exec FileStream A) (s : PcapStream)
    → Below left n (m s.file)
    → Below left_in n (on_file m s)
on_file-Below n m s p =
    Below-member left_in left (λ s. s.file) (λ f s. record s { file = f }) n (m s.file) s
      (λ t. refl) p

on_handle-Below :
    {A : Type 0} (n : ℕ) (m : Exec PcapStream A) (s : Checking)
    → Below left_in n (m s.handle)
    → Below left_to n (on_handle m s)
on_handle-Below n m s p =
    Below-member left_to left_in (λ s. s.handle) (λ h s. record s { handle = h }) n (m s.handle) s
      (λ t. refl) p

on_pack-Below :
    {A : Type 0} (n : ℕ) (m : Exec Packet A) (s : Checking)
    → left_to s < n
    → Below left_to n (on_pack m s)
on_pack-Below n m s p =
    Below-beside left_to (λ s. s.pack) (λ q s. record s { pack = q }) n (m s.pack) s (λ t. refl) p

recv-Below : (len : ℕ) (s : PcapStream) → Below left_in (left_in s) (recv len s)
unfolding recv
recv-Below len s =
    let n = left_in s in
    let last = λ (m : ℕ) (s : PcapStream) (q : left_in s < n).
      Below-bind left_in n n
        (throw_if (ltb len m) "pgen::pcap_stream::recv: buffer length is too small" s) _ s
        (Below-throw_if left_in (ltb len m) _ s n q)
        (λ _ s' q. on_file-Below n (FileStream.read m) s' (read-keeps m s'.file n q)) in
    Below-bind left_in n n (on_file (FileStream.read 16) s) _ s
      (on_file-Below n (FileStream.read 16) s (read-Below 16 s.file (omega arith)))
      (λ bytes s' q. last (pcap_packet_header.view bytes).original_len s' q)

report-left :
    (callback : Bool) (bytes : List ℕ) (o : Outcome) (s : Checking)
    → left_to (report callback bytes o s) ≡ left_to s
report-left callback bytes Outcome.length_error s = refl
report-left callback bytes Outcome.binary_error s = refl
report-left callback bytes Outcome.successed s = refl

check_round-Below :
    (callback : Bool) (s : Checking) → Below left_to (left_to s) (check_round callback s)
unfolding check_round
check_round-Below callback s =
    let n = left_to s in
    Below-bind left_to n n (on_handle (recv 10000) s) _ s
      (on_handle-Below n (recv 10000) s (recv-Below 10000 s.handle))
      (λ bytes s1 q.
        Below-bind left_to n n (on_pack (analyze bytes (length bytes)) s1) _ s1
          (on_pack-Below n (analyze bytes (length bytes)) s1 q)
          (λ _ s2 q.
            Below-bind left_to n n (on_pack compile s2) _ s2 (on_pack-Below n compile s2 q)
              (λ _ s3 q.
                Below-bind left_to n n (on_pack (compare_packet bytes) s3) _ s3
                  (on_pack-Below n (compare_packet bytes) s3 q)
                  (λ o s4 q. omega (arith, report-left callback bytes o s4, q)))))

feof_handle-Below :
    (s : Checking) → Below left_to (suc (left_to s)) (on_handle (on_file FileStream.feof) s)
feof_handle-Below s =
    on_handle-Below (suc (left_to s)) (on_file FileStream.feof) s
      (on_file-Below (suc (left_to s)) FileStream.feof s.handle (feof-Below s.handle.file))

increment-Below : (count n : ℕ) (s : Checking) → left_to s < n → Below left_to n (increment count s)
increment-Below count n s p = inner (ltb count 2147483647)
  where
    inner : (b : Bool) → Below left_to n ((if b then pure (count + 1) else undefined) s)
    inner true = p
    inner false = tt

-- A round behind the test for the end, and `count++`.
next_count-Below :
    (callback : Bool) (count : ℕ) (s : Checking)
    → Below left_to (left_to s) ((check_round callback >> increment count) s)
next_count-Below callback count s =
    Below-bind left_to (left_to s) (left_to s) (check_round callback s) (λ _. increment count) s
      (check_round-Below callback s) (λ _ s' q. increment-Below count (left_to s) s' q)

-- A block that never gives `none`.
abbrev Never : {S A : Type 0} → Run S (Option A) → Type 0
Never (ok none s) = ⊥
Never (ok (some a) s) = Unit {0}
Never (throw e s) = Unit {0}
Never fault = Unit {0}

Never-bind :
    {S A B : Type 0} (size : S → ℕ) (n : ℕ) (r : Run S A) (f : A → Exec S (Option B)) (s : S)
    → Below size n r
    → ((a : A) (s' : S) → size s' < n → Never (f a s'))
    → Never (((λ (_ : S). r) >>= f) s)
Never-bind size n (ok a s') f s p q = q a s' p
Never-bind size n (throw e s') f s p q = tt
Never-bind size n fault f s p q = tt

check_loop-Never :
    (n : ℕ) (callback : Bool) (count : ℕ) (s : Checking)
    → left_to s < n
    → Never (check_loop n callback count s)
unfolding check_loop
check_loop-Never zero callback count s p = absurd (omega (arith, p))
check_loop-Never (suc n) callback count s p =
    Never-bind left_to (suc (left_to s)) (on_handle (on_file FileStream.feof) s) _ s
      (feof_handle-Below s)
      (λ end s' q.
        inner end s' (omega (arith, q, p)) (λ count s'' r. check_loop-Never n callback count s'' r))
  where
    inner :
        (end : Bool) (s' : Checking)
        → left_to s' < suc n
        → ((count : ℕ) (s'' : Checking) → left_to s'' < n → Never (check_loop n callback count s''))
        → Never (
            (elim end as (λ _. Exec Checking (Option ℕ)) [
              | true ↦ pure (some count)
              | false ↦
                  (check_round callback >> increment count >>= λ count. check_loop n callback count)
            ])
              s')
    inner true s' r next = tt
    inner false s' r next =
        Never-bind left_to (left_to s') ((check_round callback >> increment count) s') _ s'
          (next_count-Below callback count s') (λ count s'' q. next count s'' (omega (arith, q, r)))

Never-none : {S A : Type 0} (r : Run S (Option A)) (s : S) → Never r → ¬ (r ≡ ok none s)
Never-none (ok none s') s p = absurd p
Never-none (ok (some a) s') s p = λ h. cc
Never-none (throw e s') s p = λ h. cc
Never-none fault s p = λ h. cc

-- The first part of `check`: the file, with its header read or not.
open-Below :
    (opened : Option File) (n : ℕ) (s : Checking)
    → left (record { fd = opened }) < n
    → Below left_to n (on_handle (open_stream opened pcap_read) s)
unfolding open_stream FileStream.fopen
open-Below none n s p = tt
open-Below (some f) n s p =
    let t : PcapStream = record s.handle { file = record { fd = some f } } in
    on_handle-Below n (open_stream (some f) pcap_read) s (
      Below-bind left_in n n (on_file (FileStream.read 24) t) _ t
        (on_file-Below n (FileStream.read 24) t (read-keeps 24 t.file n p)) (λ bytes s' q. q))

-- `check` of any file, whatever it holds and whatever the packet object does with it, with more rounds
-- than the file has bytes: it never runs out of rounds, so it returns a number, throws, or does what
-- the language leaves undefined.
pub check_total :
    (n : ℕ) (opened : Option File) (callback : Bool) (s s' : Checking)
    → left (record { fd = opened }) < n
    → ¬ (check n opened callback s ≡ ok none s')
unfolding check
check_total n opened callback s s' p = Never-none (check n opened callback s) s' (
    Never-bind left_to n (on_handle (open_stream opened pcap_read) s) (λ _. check_loop n callback 0)
      s (open-Below opened n s p) (λ _ t q. check_loop-Never n callback 0 t q))
