-- ===== src/Packet.antt =====
-- pgen/core/packet.h: the class `packet`. Its headers are pointers to members of the derived class,
-- outermost protocol first; here they stand in that order as values. A failed `assert` ends the
-- program and counts as `fault`.
pub mod Headers
pub mod Reading
pub mod Kinds
pub mod Laws
pub mod Analyze
pub mod Contents
pub mod Dump
use libpgen.Base.{
  ℕ, ◌+◌, ◌-◌, ◌≡◌, List, [], ◌∷◌, ◌&&◌, length, take, drop, leb, if◌then◌else◌, reverse,
}
use libpgen.Base.Bytes.{sub_size}
use libpgen.Base.Run.{Run, ok, throw, fault, Exec, pure, ◌>>=◌, ◌>>◌}
use libpgen.DataContainer
use libpgen.DataContainer.{DataContainer}
use libpgen.Header
use libpgen.Header.{Header}
use libpgen.Layout.{Memory, fetch}

-- `packet_type`
pub data PacketType : Type 0 where
  unknown ethernet arp ip ipv6 icmp tcp udp : PacketType

pub record Packet : Type 0 where
  pub type : PacketType
  pub raw : DataContainer
  pub headers : List Header

abbrev pub max_header_len : ℕ
max_header_len = 128

unfoldable pub set_contents : List ℕ → Packet → Packet
set_contents buf p = record p { raw = DataContainer.set_content buf p.raw }

unfoldable pub header_length_of : List Header → ℕ
header_length_of [] = 0
header_length_of (h ∷ hs) = Header.length_of h + header_length_of hs

unfoldable pub header_length : Packet → ℕ
unfolding header_length_of
header_length p = header_length_of p.headers

-- The bytes from the pointer that `contents` returns.
unfoldable pub contents : Exec Packet (List ℕ)
contents p =
    if leb max_header_len (length p.raw.vec) then ok (drop max_header_len p.raw.vec) p else fault

-- The bytes from the pointer that `raw` returns.
unfoldable pub raw : Exec Packet (List ℕ)
unfolding header_length
raw p =
    if leb (header_length p) max_header_len && leb max_header_len (length p.raw.vec)
    then ok (drop (max_header_len - header_length p) p.raw.vec) p
    else fault

unfoldable pub length_of : Exec Packet ℕ
unfolding header_length
length_of p =
    if leb max_header_len (length p.raw.vec)
    then ok (length p.raw.vec - max_header_len + header_length p) p
    else fault

-- The loop of `compile` over the headers from the last to the first: `pointer` is where the header
-- written before begins.
unfoldable pub write_headers : List Header → ℕ → Exec Memory (Unit {0})
write_headers [] pointer = pure tt
write_headers (h ∷ hs) pointer =
    let rest = write_headers hs (pointer - Header.length_of h) in
    if leb (Header.length_of h) pointer
    then (do Header.write h (pointer - Header.length_of h) (Header.length_of h); rest)
    else λ mem. fault

abbrev pub with_vec : Packet → Run Memory (Unit {0}) → Run Packet (Unit {0})
with_vec p (ok a mem) = ok a (record p { raw = record { vec = mem; pivot = p.raw.pivot } })
with_vec p (throw e mem) = throw e (record p { raw = record { vec = mem; pivot = p.raw.pivot } })
with_vec p fault = fault

unfoldable pub compile : Exec Packet (Unit {0})
unfolding write_headers
compile p = with_vec p (write_headers (reverse p.headers) p.raw.pivot p.raw.vec)

abbrev pub in_front : {A : Type 0} → Header → Run (List Header) A → Run (List Header) A
in_front h (ok a hs) = ok a (h ∷ hs)
in_front h (throw e hs) = throw e (h ∷ hs)
in_front h fault = fault

-- One round of the loop of `analyze`: `rest` goes on behind the header that was read.
abbrev pub next_header :
    Run Header (Unit {0})
    → (Header → Run (List Header) (ℕ × ℕ))
    → List Header
    → Run (List Header) (ℕ × ℕ)
next_header (ok _ h) rest hs = in_front h (rest h)
next_header (throw e h) rest hs = throw e (h ∷ hs)
next_header fault rest hs = fault

-- The loop of `analyze`: `at` is the pointer and `len` the length left. It returns both.
unfoldable pub read_headers : List ℕ → ℕ → ℕ → List Header → Run (List Header) (ℕ × ℕ)
read_headers buf at len [] = ok (at, len) []
read_headers buf at len (h ∷ hs) =
    next_header (Header.read buf at len h)
      (λ h'. read_headers buf (at + Header.length_of h') (sub_size len (Header.length_of h')) hs) hs

-- What `analyze` does once the headers are read: the rest of the buffer is the content.
abbrev pub take_contents : List ℕ → Packet → Run (List Header) (ℕ × ℕ) → Run Packet (Unit {0})
take_contents buf p (ok (at, len) hs) =
    if leb (at + len) (length buf)
    then ok tt (set_contents (take len (drop at buf)) (record p { headers = hs }))
    else fault
take_contents buf p (throw e hs) = throw e (record p { headers = hs })
take_contents buf p fault = fault

unfoldable pub analyze : List ℕ → ℕ → Exec Packet (Unit {0})
unfolding read_headers set_contents
analyze buf bufferlen p = take_contents buf p (read_headers buf 0 bufferlen p.headers)
