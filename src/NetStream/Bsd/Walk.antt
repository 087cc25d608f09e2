-- ===== src/NetStream/Bsd/Walk.antt =====
-- A batch of packets that one `read` brings, received one by one.
use libpgen.Base.{
  ℕ, ◌*◌, ◌/◌, ◌%◌, ◌-◌, refl, sym, append-nil, replicate, ◌+◌, ◌≤◌, ◌≡◌, ap, ◌∙◌, subst, List, [],
  ◌∷◌, ◌++◌, Option, some, none, arith, length, All, length-append, leb, le→leb, gt→leb, ge→ltb,
  if◌then◌else◌, true, false,
}
use libpgen.Base.Run.{ok, member, pure, member-ok, >>=-ok, ◌>>=◌}
use libpgen.Base.Splice.{splice}
use libpgen.Layout.{
  Memory, StandsAt, StandsAt-append, cast-StandsAt, fetch-StandsAt, cast, fetch, store,
  store_within,
}
use libpgen.NetStream
use libpgen.NetStream.{Net, Calls, on_fd, eintr}
use libpgen.NetStream.Bsd.{BpfHeader, BpfNet, bpf_header, fill, advance, recv, on_net}
use libpgen.Stream.Capture.{recv_each}

-- A packet as the packet filter hands it over: its header, of the length that it says it has, and the
-- bytes captured.
pub record Captured : Type 0 where
  pub header : BpfHeader
  pub padding : List ℕ
  pub packet : List ℕ

pub record IsCaptured (c : Captured) : Type 0 where
  pub fits : bpf_header.Fits c.header
  pub head : c.header.hdrlen ≡ 18 + length c.padding
  pub captured : c.header.caplen ≡ length c.packet

abbrev pub record_of : Captured → List ℕ
record_of c = (bpf_header.put c.header ++ c.padding) ++ c.packet

-- The records end to end.
abbrev pub batch : List Captured → List ℕ
batch [] = []
batch (c ∷ cs) = record_of c ++ batch cs

-- `BPF_WORDALIGN` of OS X: the next multiple of 4.
abbrev word_align : ℕ → ℕ
word_align n = (n + 3) / 4 * 4

-- What the packet filter delivers: each record but the first starts at the next multiple of 4.
abbrev pub delivered : List Captured → List ℕ
delivered [] = []
delivered (c ∷ []) = record_of c
delivered (c ∷ d ∷ cs) =
    let n = length (record_of c) in
    record_of c ++ (replicate (word_align n - n) 0 ++ delivered (d ∷ cs))

-- Each record but the last ends at a multiple of 4.
abbrev pub AreAligned : List Captured → Type 0
AreAligned [] = Unit
AreAligned (c ∷ []) = Unit
AreAligned (c ∷ d ∷ cs) = (length (record_of c) % 4 ≡ 0) × AreAligned (d ∷ cs)

no_gap : (n : ℕ) → n % 4 ≡ 0 → word_align n - n ≡ 0
no_gap n h = omega (arith, h)

pub delivered-batch : (cs : List Captured) → AreAligned cs → delivered cs ≡ batch cs
delivered-batch [] a = refl
delivered-batch (c ∷ []) a = sym (append-nil (record_of c))
delivered-batch (c ∷ d ∷ cs) (a, others) =
    ap (λ (k : ℕ). record_of c ++ (replicate k 0 ++ delivered (d ∷ cs)))
      (no_gap (length (record_of c)) a)
    ∙ ap (λ xs. record_of c ++ xs) (delivered-batch (d ∷ cs) others)

abbrev pub packets : List Captured → List (List ℕ)
packets [] = []
packets (c ∷ cs) = c.packet ∷ packets cs

pub length-record_of :
    (c : Captured) → IsCaptured c → length (record_of c) ≡ c.header.hdrlen + c.header.caplen
length-record_of c v = omega (
  arith,
  length-append (bpf_header.put c.header ++ c.padding) c.packet,
  length-append (bpf_header.put c.header) c.padding,
  bpf_header.length-put c.header v.fits,
  v.head,
  v.captured,
)

module _ {Kernel : Type 0} (calls : Calls Kernel) (n bufferlen : ℕ) where
  -- A stream that is to go on at `point`.
  abbrev pub at_point : Net Kernel → Memory → ℕ → Option ℕ → BpfNet Kernel
  at_point net buffer readed point = record {
    net = net;
    buffer = buffer;
    buffer_point = point;
    buffer_size_readed = readed;
  }

  advance_lem :
      (net : Net Kernel) (buffer : Memory) (readed point behind : ℕ)
      → behind ≤ length buffer
      → advance calls behind (at_point net buffer readed (some point))
        ≡ ok tt (at_point net buffer readed (if leb readed behind then none else some behind))
  advance_lem net buffer readed point behind r = rw (le→leb behind (length buffer) r)

  recv_one :
      (net : Net Kernel) (buffer : Memory) (readed point : ℕ) (c : Captured)
      → IsCaptured c
      → length c.packet ≤ bufferlen
      → StandsAt (record_of c) buffer point
      → let behind = point + length (record_of c) in
        recv calls n bufferlen (at_point net buffer readed (some point))
        ≡ ok c.packet (at_point net buffer readed (if leb readed behind then none else some behind))
  unfolding recv fill
  recv_one net buffer readed point c v l st =
      let s = at_point net buffer readed (some point) in
      let long = length-record_of c v in
      let (front, packet) =
        StandsAt-append (bpf_header.put c.header ++ c.padding) c.packet buffer point st in
      let first = (StandsAt-append (bpf_header.put c.header) c.padding buffer point front).0 in
      let head = length-append (bpf_header.put c.header) c.padding in
      let eighteen = bpf_header.length-put c.header v.fits in
      let behind = point + c.header.hdrlen + c.header.caplen in
      >>=-ok (cast bpf_header buffer point) _ s
        (cast-StandsAt bpf_header c.header buffer point s v.fits first)
      ∙ rw (ge→ltb bufferlen c.header.caplen (omega (arith, l, v.captured))) (
          >>=-ok (fetch buffer (point + c.header.hdrlen) c.header.caplen) _ s (
            fetch-StandsAt c.packet buffer (point + c.header.hdrlen) c.header.caplen s v.captured (
              subst (λ (k : ℕ). StandsAt c.packet buffer k) (omega (arith, head, eighteen, v.head))
                packet))
          ∙ >>=-ok (advance calls behind) (λ _. pure c.packet) s
              (advance_lem net buffer readed point behind (omega (arith, st.room, long)))
          ∙ (ap
              (λ (k : ℕ).
                ok c.packet (at_point net buffer readed (if leb readed k then none else some k)))
              {x = behind} {y = point + length (record_of c)} (omega (arith, long))))

  pub recv_rest :
      (net : Net Kernel) (buffer : Memory) (readed point : ℕ) (c : Captured) (cs : List Captured)
      → All IsCaptured (c ∷ cs)
      → All (λ p. length p ≤ bufferlen) (packets (c ∷ cs))
      → readed ≡ point + length (batch (c ∷ cs))
      → StandsAt (batch (c ∷ cs)) buffer point
      → recv_each
          (recv calls n bufferlen)
          (length (c ∷ cs))
          (at_point net buffer readed (some point))
        ≡ ok (packets (c ∷ cs)) (at_point net buffer readed none)
  recv_rest net buffer readed point c [] (v, vs) (l, ls) e st =
      let s = at_point net buffer readed (some point) in
      let behind = point + length (record_of c) in
      let last : leb readed behind ≡ true =
        le→leb readed behind (omega (arith, e, length-append (record_of c) [])) in
      >>=-ok (recv calls n bufferlen) _ s (
        recv_one net buffer readed point c v l (StandsAt-append (record_of c) [] buffer point st).0
        ∙ ap (λ b. ok c.packet (at_point net buffer readed (if b then none else some behind))) last)
  recv_rest net buffer readed point c (d ∷ ds) (v, vs) (l, ls) e st =
      let s = at_point net buffer readed (some point) in
      let behind = point + length (record_of c) in
      let others = batch (d ∷ ds) in
      let (first, second) = StandsAt-append (record_of c) others buffer point st in
      let more = length-append (record_of c) others in
      let next = length-append (record_of d) (batch ds) in
      let long = length-record_of d vs.0 in
      let inside : leb readed behind ≡ false =
        gt→leb readed behind (omega (arith, e, more, next, long, vs.0.head)) in
      let rest = recv_each (recv calls n bufferlen) (length (d ∷ ds)) in
      >>=-ok (recv calls n bufferlen) (λ q. rest >>= λ qs. pure (q ∷ qs)) s
        (recv_one net buffer readed point c v l first
          ∙ ap (λ b. ok c.packet (at_point net buffer readed (if b then none else some behind)))
              inside)
      ∙ >>=-ok rest (λ qs. pure (c.packet ∷ qs)) (at_point net buffer readed (some behind))
          (recv_rest net buffer readed behind d ds vs ls (omega (arith, e, more)) second)

  -- `recv` with no packet left reads a batch into the buffer and goes on at its front.
  pub recv_filled :
      (net net' : Net Kernel) (buffer : Memory) (readed : ℕ) (bytes : List ℕ)
      → NetStream.read calls n (length buffer) net ≡ ok (some bytes) net'
      → length bytes ≤ length buffer
      → recv calls n bufferlen (at_point net buffer readed none)
        ≡ recv calls n bufferlen (at_point net' (splice 0 bytes buffer) (length bytes) (some 0))
  unfolding recv fill
  recv_filled net net' buffer readed bytes e r =
      let s = at_point net buffer readed none in
      let s1 = at_point net' buffer readed none in
      let s2 = at_point net' (splice 0 bytes buffer) readed none in
      let s3 = at_point net' (splice 0 bytes buffer) (length bytes) (some 0) in
      >>=-ok (fill calls n) _ s (
        >>=-ok (on_net (NetStream.read calls n (length buffer))) _ s (
          member-ok (λ s. s.net) (λ n s. record s { net = n })
            (NetStream.read calls n (length buffer)) s e)
        ∙ >>=-ok
            (member (λ (s : BpfNet Kernel). s.buffer) (λ b s. record s { buffer = b })
              (store bytes 0))
            _ s1
            (member-ok (λ (s : BpfNet Kernel). s.buffer) (λ b s. record s { buffer = b })
              (store bytes 0) s1 (store_within bytes 0 buffer (omega (arith, r)))))
