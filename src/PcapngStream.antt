-- ===== src/PcapngStream.antt =====
-- pgen/io/pcapng_stream.h: the class `pcapng_stream`, on a little-endian host. It has no members
-- beside those of `file_stream`.
pub mod Reads
pub mod Blocks
pub mod Rounds
pub mod Packets
pub mod Opening
pub mod RoundTrip
pub mod Taking
pub mod Termination
pub mod Overflow
pub mod Mixed
use libpgen.Base.{
  ℕ, zero, suc, ◌+◌, List, [], Option, none, some, length, replicate, ltb, ◌==◌, not, if◌then◌else◌,
}
use libpgen.Base.Bytes.{sub_size}
use libpgen.Base.Run.{Exec, ok, throw, fault, raise, pure, member, throw_if, undefined, ◌>>=◌, ◌>>◌}
use libpgen.FileStream
use libpgen.FileStream.{File, FileStream, left}
use libpgen.Stream.{OpenMode, pcap_read, pcap_write, pcapng_read, pcapng_write, netif}
use libpgen.Layout.{Memory, cast, fetch, store}
use libpgen.Pcapng.{
  Block, BodyOps, BlockHead, block_head, section_header, simple_packet, enhanced_packet, read,
  write,
}
use libpgen.Pcapng.Shb
use libpgen.Pcapng.Idb
use libpgen.Pcapng.Epb
use libpgen.Pcapng.Epb.{Epb}

-- Runs a method of an object that is local to the function, and returns the object too.
abbrev pub on_local : {S T A : Type 0} → T → Exec T A → Exec S (A × T)
on_local t m s = elim (m t) [ ok a t' ↦ ok (a, t') s | throw e t' ↦ throw e s | fault ↦ fault ]

unfoldable pub write_block : {B : Type 0} → BodyOps B → Block B → Exec FileStream (Unit {0})
write_block ops b = do
  raw_data ← on_local (replicate b.total_length 0) (write ops b 0 b.total_length)
  FileStream.write raw_data.1

-- The stream, and the buffer that `read_block` fills.
pub record Reading : Type 0 where
  pub file : FileStream
  pub buffer : Memory

-- `read(buffer + at, n)`: `fread` puts what it reads into the buffer, also when that is too little.
abbrev pub read_into : ℕ → ℕ → Exec Reading (Unit {0})
read_into at n = do
  p ← member (λ s. s.file) (λ f s. record s { file = f }) (FileStream.on_fd (FileStream.fread n))
  member (λ s. s.buffer) (λ b s. record s { buffer = b }) (store p.1 at)
  throw_if (not (p.0 == 1)) "pgen::file_stream::fread::fread: "

-- `head`, a pointer to the front of the buffer, followed.
abbrev pub head_of : Exec Reading BlockHead
head_of s = cast block_head s.buffer 0 s

abbrev pub body_room : ℕ → ℕ
body_room total_length = sub_size (sub_size total_length 8) 4

-- The length of the buffer is counted down and not looked at. Of the two lengths of the block only the
-- first matters: the exception made where they differ is not thrown.
unfoldable pub read_block : Exec Reading ℕ
read_block = do
  read_into 0 8
  head ← head_of
  read_into 8 (body_room head.total_length)
  read_into (8 + body_room head.total_length) 4
  head ← head_of
  pure head.total_length

unfoldable pub detect_pcapng_blocktype : {S : Type 0} → Memory → ℕ → Exec S ℕ
detect_pcapng_blocktype buffer bufferlen = do
  throw_if (ltb bufferlen block_head.size) "pgen::detect_pcapng_blocktype: bufferlen is too small"
  p ← cast block_head buffer 0
  pure p.type

-- A call of `read_block` on a buffer of the caller's.
abbrev pub on_buffer : {A : Type 0} → Memory → Exec Reading A → Exec FileStream (A × Memory)
on_buffer tmp m s = elim (m (record { file = s; buffer = tmp })) [
  | ok a t ↦ ok (a, t.buffer) t.file
  | throw e t ↦ throw e t.file
  | fault ↦ fault
]

abbrev pub at_most : ℕ → ℕ → ℕ
at_most bufferlen n = if ltb bufferlen n then bufferlen else n

-- The branch of `recv` for an enhanced packet block. The number of bytes copied is the packet's own
-- length, whatever part of it was captured, or `bufferlen`, where that is less.
abbrev pub copy_packet : Memory → ℕ → ℕ → Exec FileStream (List ℕ)
copy_packet tmp blocklen bufferlen = do
  epb ← on_local (Epb.construct []) (read Epb.ops tmp 0 blocklen)
  fetch epb.1.body.packet 0 (at_most bufferlen epb.1.body.fields.packet_length)

-- One round of the loop of `recv`: the packet, or none for `continue`. `tmp` is what `tmp_buffer`
-- happens to hold.
unfoldable pub recv_round : Memory → ℕ → Exec FileStream (Option (List ℕ))
recv_round tmp bufferlen = do
  end ← FileStream.feof
  throw_if end "pgen::pcapng_stream::recv: is end of file"
  block ← on_buffer tmp read_block
  type ← detect_pcapng_blocktype block.1 block.0
  if type == enhanced_packet
      then (copy_packet block.1 block.0 bufferlen >>= λ bytes. pure (some bytes))
      else if type == simple_packet
      then raise "pgen::pcapng_stream::recv: not implement"
      else pure none

-- The loop, for at most as many rounds as the number says: none where they were too few. `tmp_buffer`
-- is a new variable in each round; `tmp` stands for what each of them happens to hold.
unfoldable pub recv_loop : ℕ → Memory → ℕ → Exec FileStream (Option (List ℕ))
recv_loop zero tmp bufferlen = pure none
recv_loop (suc n) tmp bufferlen = recv_round tmp bufferlen >>= λ r. elim r [
  | none ↦ recv_loop n tmp bufferlen
  | some p ↦ pure (some p)
]

abbrev pub given : Option (List ℕ) → Exec FileStream (List ℕ)
given none = undefined
given (some p) = pure p

-- The method `recv`, with more rounds than the file has bytes. It returns what it puts into the
-- caller's buffer; their number is the result.
unfoldable pub recv : Memory → ℕ → Exec FileStream (List ℕ)
recv tmp bufferlen s = (recv_loop (suc (left s)) tmp bufferlen >>= given) s

-- One block of `open`: written to the buffer, and from there to the file.
abbrev pub open_block : {B : Type 0} → BodyOps B → Block B → Memory → Exec FileStream Memory
open_block ops b tmp = do
  p ← on_local tmp (write ops b 0 1000)
  bytes ← fetch p.1 0 b.total_length
  FileStream.write bytes
  pure p.1

-- The method `open`. The parameters are what `tmp_buffer` happens to hold, and what `::fopen` returns.
unfoldable pub open_stream : Memory → Option File → OpenMode → Exec FileStream (Unit {0})
open_stream tmp opened pcapng_write = do
  FileStream.fopen opened
  tmp ← open_block Shb.ops Shb.construct tmp
  tmp ← open_block Idb.ops Idb.construct tmp
  pure tt
open_stream tmp opened pcapng_read = FileStream.fopen opened
open_stream tmp opened pcap_read = raise "pgen::pcapng_stream::open: unknown mode \n"
open_stream tmp opened pcap_write = raise "pgen::pcapng_stream::open: unknown mode \n"
open_stream tmp opened netif = raise "pgen::pcapng_stream::open: unknown mode \n"

-- The block of a packet.
abbrev pub packet_block : List ℕ → Block Epb
packet_block buf = Epb.set_packet buf (Epb.construct [])

unfoldable pub send : List ℕ → Exec FileStream (Unit {0})
unfolding Epb.set_packet
send buf = write_block Epb.ops (packet_block buf)
