-- ===== src/Stream/Packets.antt =====
-- pgen/core/packet.h: `operator<<`, which sends a packet into any stream.
use libpgen.Base.{ℕ, ◌++◌, ◌≤◌, ◌<◌, ◌≡◌, ap, ◌∙◌, List, arith, length, take, take-length}
use libpgen.Base.Bytes.{IsBytes, size_mod}
use libpgen.Base.Run.{Exec, ok, throw, fault, >>=-ok, ◌>>=◌}
use libpgen.FileStream.{File, advance}
use libpgen.FileStream.Laws.{file_at}
use libpgen.Layout.{fetch, within_bounds}
use libpgen.Packet.{Packet, raw, length_of, analyze, compile}
use libpgen.Packet.Analyze.{compile-analyze_lem}
use libpgen.Packet.Laws.{IsValid}
use libpgen.Packet.Reading.{AllReadable}
use libpgen.Stream.Capture.{IsCapture}

-- A method of an object that is `const`: the object stays.
abbrev on_const : {S T A : Type 0} → T → Exec T A → Exec S A
on_const t m s = elim (m t) [ ok a t' ↦ ok a s | throw e t' ↦ throw e s | fault ↦ fault ]

on_const-ok :
    {S T A : Type 0} (t : T) (m : Exec T A) (s : S) {a : A} {t' : T}
    → m t ≡ ok a t'
    → on_const t m s ≡ ok a s
on_const-ok t m s e = rw (e, on_const)

-- `operator<<`, on a stream with the method `send`, which reads its bytes from the pointer on.
unfoldable pub put_packet : {S : Type 0} → (List ℕ → Exec S (Unit {0})) → Packet → Exec S (Unit {0})
put_packet send pack = do
  own ← on_const pack raw
  n ← on_const pack length_of
  bytes ← fetch own 0 n
  send bytes

-- Bytes that are analyzed into a valid packet, compiled, sent with `operator<<` into a stream over a
-- capture file, and received there, are the same bytes. It holds for every stream that keeps the
-- promise of `IsCapture`, bytes that it can send and that hold one readable header after the other, an
-- IPv6 header without flow label and traffic class, a file with room for them, and a buffer as long as
-- they are or longer.
pub recv-put_packet :
    {S : Type 0} {send : List ℕ → Exec S (Unit {0})} {recv : ℕ → Exec S (List ℕ)}
    {IsSendable : List ℕ → Type 0} {record_of : List ℕ → List ℕ} {opened : File → S}
    (capture : IsCapture send recv IsSendable record_of opened) (bytes rest passed : List ℕ)
    (p : Packet) (f : File) (room buflen : ℕ)
    → IsBytes bytes
    → length bytes < size_mod
    → IsValid p
    → AllReadable p.headers (length bytes) bytes
    → IsSendable bytes
    → length (record_of bytes) ≤ f.room
    → length bytes ≤ buflen
    → (p' p'' : Packet) × (analyze bytes (length bytes) p ≡ ok tt p')
      × (compile p' ≡ ok tt p'')
      × (put_packet send p'' (opened f) ≡ ok tt (opened (advance (record_of bytes) f)))
      × (recv buflen (opened (file_at passed (record_of bytes ++ rest) room))
          ≡ ok bytes (opened (file_at (passed ++ record_of bytes) rest room)))
unfolding put_packet
recv-put_packet {send = send} {opened = opened} capture bytes rest passed p f room buflen b s v r
      sendable fits l =
    let (p', p'', analyzed, compiled, back, long, _, _) = compile-analyze_lem bytes p b s v r in
    let n = length bytes in
    let t = opened f in
    (
      p',
      p'',
      analyzed,
      compiled,
      >>=-ok (on_const p'' raw) _ t (on_const-ok p'' raw t back)
          ∙ >>=-ok (on_const p'' length_of) _ t (on_const-ok p'' length_of t long)
          ∙ >>=-ok (fetch bytes 0 n) send t (
              within_bounds bytes 0 n (take n bytes) t (omega arith)
              ∙ ap (λ xs. ok xs t) (take-length bytes n (omega arith)))
          ∙ capture.send_record bytes f sendable fits,
      capture.recv_record bytes rest passed room buflen sendable l,
    )
