-- ===== src/Stream/Capture.antt =====
-- What a stream over a capture file promises: `send` appends a record of the packet to the file, and
-- `recv` takes the packet of the record at the file's position.
use libpgen.Base.{
  ℕ, zero, suc, ◌≤◌, ◌≡◌, sym, ap, ◌∙◌, List, [], ◌∷◌, ◌++◌, arith, length, append_assoc,
  append-nil, length-append, All,
}
use libpgen.Base.Run.{Exec, ok, pure, >>=-ok, ◌>>=◌, ◌>>◌}
use libpgen.FileStream.{File, advance}
use libpgen.FileStream.Laws.{file_at, advance-nil, advance-advance}

-- A caller that sends packet after packet.
abbrev pub send_each :
    {S : Type 0} → (List ℕ → Exec S (Unit {0})) → List (List ℕ) → Exec S (Unit {0})
send_each send [] = pure tt
send_each send (p ∷ ps) = send p >> send_each send ps

-- A caller that receives `n` packets.
abbrev pub recv_each : {S : Type 0} → Exec S (List ℕ) → ℕ → Exec S (List (List ℕ))
recv_each recv zero = pure []
recv_each recv (suc n) = do p ← recv; ps ← recv_each recv n; pure (p ∷ ps)

-- The packets as they stand in the file, one after the other.
abbrev pub records : (List ℕ → List ℕ) → List (List ℕ) → List ℕ
records record_of [] = []
records record_of (p ∷ ps) = record_of p ++ records record_of ps

-- `opened f` is the stream whose file is `f`.
pub record IsCapture {S : Type 0} (send : List ℕ → Exec S (Unit {0})) (recv : ℕ → Exec S (List ℕ))
    (IsSendable : List ℕ → Type 0) (record_of : List ℕ → List ℕ) (opened : File → S) : Type 0 where
  pub send_record :
      (p : List ℕ) (f : File)
      → IsSendable p
      → length (record_of p) ≤ f.room
      → send p (opened f) ≡ ok tt (opened (advance (record_of p) f))
  pub recv_record :
      (p rest passed : List ℕ) (room buflen : ℕ)
      → IsSendable p
      → length p ≤ buflen
      → recv buflen (opened (file_at passed (record_of p ++ rest) room))
        ≡ ok p (opened (file_at (passed ++ record_of p) rest room))

module _ {S : Type 0} {send : List ℕ → Exec S (Unit {0})} {recv : ℕ → Exec S (List ℕ)}
    {IsSendable : List ℕ → Type 0} {record_of : List ℕ → List ℕ} {opened : File → S}
    (capture : IsCapture send recv IsSendable record_of opened) where
  pub send_each_lem :
      (ps : List (List ℕ)) (f : File)
      → All IsSendable ps
      → length (records record_of ps) ≤ f.room
      → send_each send ps (opened f) ≡ ok tt (opened (advance (records record_of ps) f))
  send_each_lem [] f v r = ap (λ g. ok tt (opened g)) (advance-nil f)
  send_each_lem (p ∷ ps) f (v, vs) r =
      let total = length-append (record_of p) (records record_of ps) in
      >>=-ok (send p) (λ _. send_each send ps) (opened f)
        (capture.send_record p f v (omega (arith, total, r)))
      ∙ send_each_lem ps (advance (record_of p) f) vs (omega (arith, total, r))
      ∙ ap (λ g. ok tt (opened g)) (advance-advance (record_of p) (records record_of ps) f)

  pub recv_each_lem :
      (ps : List (List ℕ)) (rest passed : List ℕ) (room buflen : ℕ)
      → All IsSendable ps
      → All (λ p. length p ≤ buflen) ps
      → recv_each
          (recv buflen)
          (length ps)
          (opened (file_at passed (records record_of ps ++ rest) room))
        ≡ ok ps (opened (file_at (passed ++ records record_of ps) rest room))
  recv_each_lem [] rest passed room buflen v l =
      ap (λ xs. ok [] (opened (file_at xs rest room))) (sym (append-nil passed))
  recv_each_lem (p ∷ ps) rest passed room buflen (v, vs) (l, ls) =
      let others = records record_of ps in
      let passed' = passed ++ record_of p in
      ap (λ xs. recv_each (recv buflen) (length (p ∷ ps)) (opened (file_at passed xs room)))
        (append_assoc (record_of p) others rest)
      ∙ >>=-ok (recv buflen) (λ q. recv_each (recv buflen) (length ps) >>= λ qs. pure (q ∷ qs))
          (opened (file_at passed (record_of p ++ (others ++ rest)) room))
          (capture.recv_record p (others ++ rest) passed room buflen v l)
      ∙ >>=-ok (recv_each (recv buflen) (length ps)) (λ qs. pure (p ∷ qs))
          (opened (file_at passed' (others ++ rest) room))
          (recv_each_lem ps rest passed' room buflen vs ls)
      ∙ ap (λ xs. ok (p ∷ ps) (opened (file_at xs rest room)))
          (append_assoc passed (record_of p) others)
