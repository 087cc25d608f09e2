-- ===== src/Module/Laws.antt =====
-- `check` of a capture file that holds packets of the class that it is given.
use libpgen.Base.{
  ℕ, zero, suc, ◌+◌, ◌<◌, ◌≡◌, refl, sym, ap, ◌∙◌, List, [], ◌∷◌, ◌++◌, append_assoc, append-nil,
  Bool, some, arith, length, replicate, lt→ltb, ◌==◌, All, length-append,
}
use libpgen.Base.Run.{ok, member-ok, >>=-ok, ◌>>◌}
use libpgen.FileStream
use libpgen.FileStream.Laws.{feof_lem, not_zero}
use libpgen.Module.{
  Outcome, successed, Checking, on_handle, check_round, increment, check_loop, check,
}
use libpgen.Packet.{Packet}
use libpgen.Packet.Laws.{IsValid}
use libpgen.PcapStream.{
  PcapStream, PcapFileHeader, on_file, open_stream, pcap_read, pcap_file_header, new_header,
}
use libpgen.PcapStream.Laws as PcapLaws
use libpgen.PcapStream.RoundTrip.{file_bytes, file_of, open_read}
use libpgen.Stream.Capture.{records}
use libpgen.Module.Rounds.{AllCheckable-kinds, check_round_lem, checking, IsCheckable}

-- The end of the file is where no record is left.
eof_lem :
    (h : PcapFileHeader) (passed ahead : List ℕ) (p : Packet) (os : List Outcome)
    (cs : List (List ℕ))
    → let s = checking h passed ahead p os cs in
      on_handle (on_file FileStream.feof) s ≡ ok (length ahead == 0) s
eof_lem h passed ahead p os cs =
    let s = checking h passed ahead p os cs in
    member-ok (λ s. s.handle) (λ h s. record s { handle = h }) (on_file FileStream.feof) s
      (member-ok (λ s. s.file) (λ f s. record s { file = f }) FileStream.feof s.handle
        (feof_lem passed ahead 0))

pub check_loop_lem :
    (h : PcapFileHeader) (ps : List (List ℕ)) (n count : ℕ) (passed : List ℕ) (p : Packet)
    (os : List Outcome) (cs : List (List ℕ)) (callback : Bool)
    → IsValid p
    → All (IsCheckable p) ps
    → length ps < n
    → count + length ps < 2147483648
    → (q : Packet) × (check_loop n callback count
          (checking h passed (records PcapLaws.record_of ps) p os cs)
        ≡ ok (some (count + length ps)) (
            checking h
              (passed ++ records PcapLaws.record_of ps)
              []
              q
              (os ++ replicate (length ps) successed)
              cs))
unfolding check_loop
check_loop_lem h ps zero count passed p os cs callback v c f small = absurd (omega (arith, f))
check_loop_lem h [] (suc n) count passed p os cs callback v c f small = (
  p,
  >>=-ok (on_handle (on_file FileStream.feof)) _ (checking h passed [] p os cs)
        (eof_lem h passed [] p os cs)
      ∙ ap (λ (k : ℕ). ok (some k) (checking h passed [] p os cs)) {x = count} {y = count + 0}
          (omega arith)
      ∙ ap (λ xs. ok (some (count + 0)) (checking h xs [] p os cs)) (sym (append-nil passed))
      ∙ ap (λ xs. ok (some (count + 0)) (checking h (passed ++ []) [] p xs cs))
          (sym (append-nil os)),
)
check_loop_lem h (bytes ∷ ps) (suc n) count passed p os cs callback v (c, others) f small =
    let rest = records PcapLaws.record_of ps in
    let first = PcapLaws.record_of bytes in
    let os' = os ++ successed ∷ [] in
    let ahead = first ++ rest in
    let (q, e, v', same) = check_round_lem h bytes rest passed p os cs callback v c in
    let (r, e') =
      check_loop_lem h ps n (count + 1) (passed ++ first) q os' cs callback v'
        (AllCheckable-kinds p q ps (sym same) others) (omega (arith, f)) (omega (arith, small)) in
    let s = checking h passed ahead p os cs in
    let s' = checking h (passed ++ first) rest q os' cs in
    (
      r,
      >>=-ok (on_handle (on_file FileStream.feof)) _ s (
            eof_lem h passed ahead p os cs
            ∙ ap (λ end. ok end s)
                (not_zero (length ahead) (omega (arith, length-append first rest))))
          ∙ >>=-ok (check_round callback >> increment count) (λ k. check_loop n callback k) s
              (>>=-ok (check_round callback) (λ _. increment count) s e
                ∙ rw (lt→ltb count 2147483647 (omega (arith, small))) refl)
          ∙ e'
          ∙ ap
              (λ (k : ℕ). ok (some k) (
                checking h ((passed ++ first) ++ rest) [] r (os' ++ replicate (length ps) successed)
                  cs))
              {x = count + 1 + length ps} {y = count + suc (length ps)} (omega arith)
          ∙ ap
              (λ xs.
                ok (some (count + suc (length ps)))
                  (checking h xs [] r (os' ++ replicate (length ps) successed) cs))
              (append_assoc passed first rest)
          ∙ ap
              (λ xs.
                ok (some (count + suc (length ps)))
                  (checking h (passed ++ (first ++ rest)) [] r xs cs))
              (append_assoc os (successed ∷ []) (replicate (length ps) successed)),
    )

-- `check` of a capture file whose packets the packet object's class can read: every packet is printed
-- as a success and the callback is not called, and the result is the number of packets. It holds for
-- packets of bytes, sendable, of at most 10000 bytes, fewer than 2^31 of them, and for any number of
-- rounds larger than theirs.
pub check_successes :
    (ps : List (List ℕ)) (n : ℕ) (p : Packet) (handle : PcapStream) (callback : Bool)
    → IsValid p
    → All (IsCheckable p) ps
    → length ps < n
    → length ps < 2147483648
    → (s : Checking) × (check n
          (file_of (file_bytes ps))
          callback
          (record { handle = handle; pack = p; outcomes = []; called = [] })
        ≡ ok (some (length ps)) s)
      × (s.outcomes ≡ replicate (length ps) successed)
      × (s.called ≡ [])
unfolding check
check_successes ps n p handle callback v c enough small =
    let head = pcap_file_header.put new_header in
    let s : Checking = record { handle = handle; pack = p; outcomes = []; called = [] } in
    let (q, e) =
      check_loop_lem new_header ps n 0 head p [] [] callback v c enough (omega (arith, small)) in
    (
      _,
      >>=-ok (on_handle (open_stream (file_of (file_bytes ps)) pcap_read))
            (λ _. check_loop n callback 0) s
            (member-ok (λ s. s.handle) (λ h s. record s { handle = h })
              (open_stream (file_of (file_bytes ps)) pcap_read) s
              (open_read (records PcapLaws.record_of ps) handle))
          ∙ e
          ∙ ap
              (λ (k : ℕ). ok (some k) (
                checking new_header (head ++ records PcapLaws.record_of ps) [] q
                  (replicate (length ps) successed) []))
              {x = 0 + length ps} {y = length ps} (omega arith),
      refl,
      refl,
    )
