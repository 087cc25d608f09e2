-- ===== src/Module/Rounds.antt =====
-- One round of `check` at a packet that the packet object can read.
use libpgen.Base.{
  ℕ, ◌≢◌, ◌↔◌, ◌⊎◌, inl, inr, Bool-cases, if◌then◌else◌, drop, length-append, length-drop, ◌≤◌, ◌<◌,
  ◌≡◌, refl, ap, ◌∙◌, List, [], ◌∷◌, ◌++◌, Bool, true, arith, length, ==_iff, All, take,
  take-length,
}
use libpgen.Base.Bytes.{IsBytes, size_mod}
use libpgen.Base.Run.{ok, member-ok, >>=-ok, modify}
use libpgen.FileStream.Laws.{file_at}
use libpgen.Layout.{fetch, within_bounds}
use libpgen.Module.{
  Outcome, successed, binary_error, Checking, on_handle, on_pack, same_bytes, compare_packet,
  report, check_round,
}
use libpgen.Packet.{Packet, header_length_of, analyze, compile, raw, length_of}
use libpgen.Packet.Analyze.{analyze-Analyzed, recompile_lem, compile-analyze_lem}
use libpgen.Packet.Headers.{images, length-images}
use libpgen.Packet.Kinds.{kinds, AllReadable-kinds}
use libpgen.Packet.Laws.{IsValid}
use libpgen.Packet.Reading.{AllReadable}
use libpgen.PcapStream.{PcapFileHeader, recv}
use libpgen.PcapStream.Laws as PcapLaws

same_bytes_iff : (xs ys : List ℕ) → (same_bytes xs ys ≡ true) ↔ (xs ≡ ys)
same_bytes_iff [] [] = (λ h. refl, λ h. refl)
same_bytes_iff [] (y ∷ ys) = (λ h. cc, λ h. cc)
same_bytes_iff (x ∷ xs) [] = (λ h. cc, λ h. cc)
same_bytes_iff (x ∷ xs) (y ∷ ys) =
    (λ h. ground (arith, (same_bytes_iff xs ys).0), λ h. ground (arith, (same_bytes_iff xs ys).1))

-- The comparison with a packet that has as many bytes as were received.
compare_lem :
    (bytes own : List ℕ) (p : Packet)
    → length own ≡ length bytes
    → length_of p ≡ ok (length bytes) p
    → raw p ≡ ok own p
    → compare_packet bytes p ≡ ok (if same_bytes own bytes then successed else binary_error) p
unfolding compare_packet
compare_lem bytes own p e long back =
    >>=-ok length_of _ p long
    ∙ rw ((==_iff (length bytes) (length bytes)).1 refl) (
        >>=-ok raw _ p back
        ∙ >>=-ok (fetch own 0 (length bytes)) _ p (
            within_bounds own 0 (length bytes) (take (length bytes) own) p (omega (arith, e))
            ∙ ap (λ xs. ok xs p) (take-length own (length bytes) (omega (arith, e)))))

abbrev pub checking :
    PcapFileHeader → List ℕ → List ℕ → Packet → List Outcome → List (List ℕ) → Checking
checking h passed ahead p outcomes called = record {
  handle = PcapLaws.opened (file_at passed ahead 0) h;
  pack = p;
  outcomes = outcomes;
  called = called;
}

-- What a packet of the file has to be: sendable, at most as long as the buffer, of bytes, and readable
-- for the headers of the packet object.
pub record IsCheckable (p : Packet) (bytes : List ℕ) : Type 0 where
  pub sendable : PcapLaws.IsSendable bytes
  pub short : length bytes ≤ 10000
  pub are_bytes : IsBytes bytes
  pub readable : AllReadable p.headers (length bytes) bytes

IsCheckable-kinds :
    (p q : Packet) (bytes : List ℕ)
    → kinds p.headers ≡ kinds q.headers
    → IsCheckable p bytes
    → IsCheckable q bytes
IsCheckable-kinds p q bytes e c = record {
  sendable = c.sendable;
  short = c.short;
  are_bytes = c.are_bytes;
  readable = AllReadable-kinds p.headers q.headers (length bytes) bytes e c.readable;
}

pub AllCheckable-kinds :
    (p q : Packet) (ps : List (List ℕ))
    → kinds p.headers ≡ kinds q.headers
    → All (IsCheckable p) ps
    → All (IsCheckable q) ps
AllCheckable-kinds p q [] e c = tt
AllCheckable-kinds p q (bytes ∷ ps) e (c, cs) =
    (IsCheckable-kinds p q bytes e c, AllCheckable-kinds p q ps e cs)

-- A round whose packet is analyzed: what it prints and records.
round_lem :
    (h : PcapFileHeader) (bytes rest passed : List ℕ) (p p' q : Packet) (own : List ℕ)
    (os : List Outcome) (cs : List (List ℕ)) (callback : Bool)
    → PcapLaws.IsSendable bytes
    → length bytes ≤ 10000
    → analyze bytes (length bytes) p ≡ ok tt p'
    → compile p' ≡ ok tt q
    → raw q ≡ ok own q
    → length_of q ≡ ok (length bytes) q
    → length own ≡ length bytes
    → check_round callback (checking h passed (PcapLaws.record_of bytes ++ rest) p os cs)
      ≡ ok tt (
          report callback bytes
            (if same_bytes own bytes then successed else binary_error)
            (checking h (passed ++ PcapLaws.record_of bytes) rest q os cs))
unfolding check_round
round_lem h bytes rest passed p p' q own os cs callback sendable short analyzed compiled back long
      same =
    let s = λ (p : Packet). checking h (passed ++ PcapLaws.record_of bytes) rest p os cs in
    let put = λ (p : Packet) (s : Checking). record s { pack = p } in
    >>=-ok (on_handle (recv 10000)) _ (checking h passed (PcapLaws.record_of bytes ++ rest) p os cs)
      (member-ok (λ s. s.handle) (λ h s. record s { handle = h }) (recv 10000)
        (checking h passed (PcapLaws.record_of bytes ++ rest) p os cs)
        (PcapLaws.recv_lem bytes rest passed 0 10000 h sendable short))
    ∙ >>=-ok (on_pack (analyze bytes (length bytes))) _ (s p)
        (member-ok (λ s. s.pack) put (analyze bytes (length bytes)) (s p) analyzed)
    ∙ >>=-ok (on_pack compile) _ (s p') (member-ok (λ s. s.pack) put compile (s p') compiled)
    ∙ >>=-ok (on_pack (compare_packet bytes)) (λ o. modify (report callback bytes o)) (s q)
        (member-ok (λ s. s.pack) put (compare_packet bytes) (s q)
          (compare_lem bytes own q same long back))

pub check_round_lem :
    (h : PcapFileHeader) (bytes rest passed : List ℕ) (p : Packet) (os : List Outcome)
    (cs : List (List ℕ)) (callback : Bool)
    → IsValid p
    → IsCheckable p bytes
    → (q : Packet) × (check_round callback
          (checking h passed (PcapLaws.record_of bytes ++ rest) p os cs)
        ≡ ok tt (checking h (passed ++ PcapLaws.record_of bytes) rest q (os ++ successed ∷ []) cs))
      × IsValid q
      × (kinds q.headers ≡ kinds p.headers)
check_round_lem h bytes rest passed p os cs callback v c =
    let (p', q, analyzed, compiled, back, long, v', same) =
      compile-analyze_lem bytes p c.are_bytes (omega (arith, c.sendable.small)) v c.readable in
    (
      q,
      round_lem h bytes rest passed p p' q bytes os cs callback c.sendable c.short analyzed compiled
            back long refl
          ∙ rw ((same_bytes_iff bytes bytes).1 refl) refl,
      v',
      same,
    )

-- A round of `check` at a packet that `analyze` accepts, of at most 10000 bytes. Where the bytes that
-- the headers write and the bytes behind the headers, put together, are the bytes received, a success
-- is printed and the callback is not called. Where they are not, a binary error is printed, and the
-- callback, if there is one, is called with the bytes received. The two are always equally long, so no
-- length error is printed. The packet object is valid again and has the headers that were read.
pub check_round_cases :
    (h : PcapFileHeader) (bytes rest passed : List ℕ) (p p' : Packet) (os : List Outcome)
    (cs : List (List ℕ)) (callback : Bool)
    → IsValid p
    → IsBytes bytes
    → PcapLaws.IsSendable bytes
    → length bytes ≤ 10000
    → analyze bytes (length bytes) p ≡ ok tt p'
    → let own = images p'.headers ++ drop (header_length_of p'.headers) bytes in
      let run =
        check_round callback (checking h passed (PcapLaws.record_of bytes ++ rest) p os cs) in
      let next = checking h (passed ++ PcapLaws.record_of bytes) rest in
      (q : Packet) × IsValid q
      × (q.headers ≡ p'.headers)
      × (length own ≡ length bytes)
      × (((own ≡ bytes) × (run ≡ ok tt (next q (os ++ successed ∷ []) cs)))
          ⊎ ((own ≢ bytes)
              × (run
                  ≡ ok tt (
                      next q
                        (os ++ binary_error ∷ [])
                        (if callback then cs ++ bytes ∷ [] else cs)))))
check_round_cases h bytes rest passed p p' os cs callback v bs sendable short analyzed =
    let n = header_length_of p'.headers in
    let own = images p'.headers ++ drop n bytes in
    let small : length bytes < size_mod = omega (arith, sendable.small) in
    let a = analyze-Analyzed bytes (length bytes) p p' bs small v analyzed in
    let (q, compiled, back, long, v', same) = recompile_lem bytes p p' bs small v analyzed in
    let equal : length own ≡ length bytes =
      length-append (images p'.headers) (drop n bytes)
      ∙ omega (arith, length-images p'.headers a.valid.headers, length-drop n bytes, a.fits) in
    let run =
      round_lem h bytes rest passed p p' q own os cs callback sendable short analyzed compiled back
        long equal in
    (
      q,
      v',
      same,
      equal,
      elim (Bool-cases (same_bytes own bytes)) [
        | inl e ↦ inl ((same_bytes_iff own bytes).0 e, run ∙ rw e refl)
        | inr e ↦ inr (λ t. cc (e, (same_bytes_iff own bytes).1 t), run ∙ rw e refl)
      ],
    )
