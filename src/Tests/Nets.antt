-- ===== src/Tests/Nets.antt =====
-- A packet filter that delivers two packets at once. The kernel is the list of what will be delivered.
use libpgen.Base.{ℕ, ◌≡◌, refl, List, [], ◌∷◌, Option, some, none, arith, length, replicate, min}
use libpgen.Base.Run.{ok}
use libpgen.Base.Splice.{splice}
use libpgen.NetStream.{Calls}
use libpgen.NetStream.Bsd
use libpgen.NetStream.Bsd.Walk.{Captured, delivered, packets, at_point}
use libpgen.NetStream.Laws.{before, after, recv_each-batch}
use libpgen.Stream.Capture.{recv_each}

abbrev next : List (List ℕ) → Option (List ℕ) × List (List ℕ)
next [] = (none, [])
next (x ∷ xs) = (some x, xs)

abbrev calls : Calls (List (List ℕ))
calls = record {
  write = λ fd buffer k. (some (min (length buffer) 10), k);
  read = λ fd n k. next k;
  close = λ fd k. k;
}

abbrev captured : List ℕ → Captured
captured p = record {
  header = record { timestamp = replicate 8 0; caplen = length p; datalen = length p; hdrlen = 20 };
  padding = 0 ∷ 0 ∷ [];
  packet = p;
}

abbrev first : Captured
first = captured (1 ∷ 2 ∷ 3 ∷ 4 ∷ [])

abbrev second : Captured
second = captured (5 ∷ [])

abbrev whole : List (List ℕ)
whole = delivered (first ∷ second ∷ []) ∷ []

recv_each-batch_example :
    let bytes = delivered (first ∷ second ∷ []) in
    recv_each
      (Bsd.recv calls 1 10)
      2
      (at_point calls 1 10 (before calls 3 whole []) (replicate 100 0) 0 none)
    ≡ ok (packets (first ∷ second ∷ [])) (
        at_point calls 1 10
          (after calls 3 whole [])
          (splice 0 bytes (replicate 100 0))
          (length bytes)
          none)
recv_each-batch_example =
    recv_each-batch calls 3 whole [] 0 10 0 (replicate 100 0) first (second ∷ []) refl
      (
        record {
          fits = ((refl, omega arith), (omega arith, (omega arith, omega arith)));
          head = refl;
          captured = refl;
        },
        (
          record {
            fits = ((refl, omega arith), (omega arith, (omega arith, omega arith)));
            head = refl;
            captured = refl;
          },
          tt,
        ),
      )
      (refl, tt) (omega arith, (omega arith, tt)) (omega arith)
