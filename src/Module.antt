-- ===== src/Module.antt =====
-- pgen/module.h: `check`, which reads a capture file packet by packet and tests for each that
-- `compile` after `analyze` gives the packet's bytes back.
pub mod Detect
pub mod Rounds
pub mod Laws
pub mod Termination
use libpgen.Base.{
  ℕ, zero, suc, ◌+◌, List, [], ◌∷◌, ◌++◌, Bool, true, false, not, Option, none, some, length, ltb,
  ◌==◌, if◌then◌else◌, ◌&&◌,
}
use libpgen.Base.Run.{Exec, pure, undefined, member, modify, ◌>>=◌, ◌>>◌}
use libpgen.FileStream
use libpgen.FileStream.{File}
use libpgen.Layout.{fetch}
use libpgen.Packet.{Packet, analyze, compile, length_of, raw}
use libpgen.PcapStream.{PcapStream, pcap_read, open_stream, recv, on_file}

-- What is printed for a packet.
pub data Outcome : Type 0 where
  length_error binary_error successed : Outcome

-- The local stream, the packet object of the caller's, what was printed, and the packets that the
-- callback was called with. The callback itself is the caller's code, and is taken to change nothing here.
pub record Checking : Type 0 where
  pub handle : PcapStream
  pub pack : Packet
  pub outcomes : List Outcome
  pub called : List (List ℕ)

abbrev pub on_handle : {A : Type 0} → Exec PcapStream A → Exec Checking A
on_handle = member (λ s. s.handle) (λ h s. record s { handle = h })

abbrev pub on_pack : {A : Type 0} → Exec Packet A → Exec Checking A
on_pack = member (λ s. s.pack) (λ p s. record s { pack = p })

-- `memcmp` of two runs of bytes that are equally long: whether it is 0.
abbrev pub same_bytes : List ℕ → List ℕ → Bool
same_bytes [] [] = true
same_bytes [] (y ∷ ys) = false
same_bytes (x ∷ xs) [] = false
same_bytes (x ∷ xs) (y ∷ ys) = x == y && same_bytes xs ys

-- The comparison of the packet with the bytes that were received.
unfoldable pub compare_packet : List ℕ → Exec Packet Outcome
compare_packet bytes = do
  n ← length_of
  if not (length bytes == n)
      then pure length_error
      else (raw >>= λ own. fetch own 0 (length bytes) >>= λ own.
          pure (if same_bytes own bytes then successed else binary_error))

-- The line printed, and the call of the callback, if there is one.
abbrev pub report : Bool → List ℕ → Outcome → Checking → Checking
report callback bytes successed s = record s { outcomes = s.outcomes ++ successed ∷ [] }
report callback bytes length_error s = record s {
  outcomes = s.outcomes ++ length_error ∷ [];
  called = if callback then s.called ++ bytes ∷ [] else s.called;
}
report callback bytes binary_error s = record s {
  outcomes = s.outcomes ++ binary_error ∷ [];
  called = if callback then s.called ++ bytes ∷ [] else s.called;
}

-- One round of the loop behind the test for the end of the file. Of the buffer of 10000 bytes only the
-- bytes received count: what stands behind them is not written by anyone.
unfoldable pub check_round : Bool → Exec Checking (Unit {0})
check_round callback = do
  bytes ← on_handle (recv 10000)
  on_pack (analyze bytes (length bytes))
  on_pack compile
  outcome ← on_pack (compare_packet bytes)
  modify (report callback bytes outcome)

-- `count++` on an `int` of 32 bits.
abbrev pub increment : {S : Type 0} → ℕ → Exec S ℕ
increment count = if ltb count 2147483647 then pure (count + 1) else undefined

-- The loop, for at most as many rounds as the number says: none where they were too few.
unfoldable pub check_loop : ℕ → Bool → ℕ → Exec Checking (Option ℕ)
check_loop zero callback count = pure none
check_loop (suc n) callback count = on_handle (on_file FileStream.feof) >>= λ end. elim end [
  | true ↦ pure (some count)
  | false ↦ (check_round callback >> increment count >>= λ count. check_loop n callback count)
]

-- `check`, for at most `n` rounds. `opened` is what `::fopen` returns.
unfoldable pub check : ℕ → Option File → Bool → Exec Checking (Option ℕ)
check n opened callback = on_handle (open_stream opened pcap_read) >> check_loop n callback 0
