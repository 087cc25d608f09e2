-- ===== src/PcapStream.antt =====
-- pgen/io/pcap_stream.h: the class `pcap_stream`, on a little-endian host.
pub mod Laws
pub mod RoundTrip
use libpgen.Base.{ℕ, ◌<◌, List, refl, Option, length, take, ltb}
use libpgen.Base.Bytes.{to_u32}
use libpgen.Base.Run.{Exec, raise, pure, member, modify, throw_if, ◌>>=◌, ◌>>◌}
use libpgen.FileStream
use libpgen.FileStream.{File, FileStream}
pub use libpgen.Stream.{OpenMode, pcap_read, pcap_write, pcapng_read, pcapng_write, netif}
use libpgen.Layout.{Layout, u16, u32, ◌⊗◌, via}

pub record PcapFileHeader : Type 0 where
  pub magic : ℕ
  pub version_major : ℕ
  pub version_minor : ℕ
  pub timezone : ℕ
  pub sigfigs : ℕ
  pub snaplen : ℕ
  pub linktype : ℕ

abbrev pub pcap_file_header : Layout PcapFileHeader
pcap_file_header =
    via (u32 ⊗ u16 ⊗ u16 ⊗ u32 ⊗ u32 ⊗ u32 ⊗ u32)
      (λ h. (
        h.magic,
        (h.version_major, (h.version_minor, (h.timezone, (h.sigfigs, (h.snaplen, h.linktype))))),
      ))
      (λ t. record {
        magic = t.0;
        version_major = t.1.0;
        version_minor = t.1.1.0;
        timezone = t.1.1.1.0;
        sigfigs = t.1.1.1.1.0;
        snaplen = t.1.1.1.1.1.0;
        linktype = t.1.1.1.1.1.1;
      })
      (λ h. refl) (λ t. refl)

pub record PcapPacketHeader : Type 0 where
  pub timestamp_sec : ℕ
  pub timestamp_usec : ℕ
  pub include_len : ℕ
  pub original_len : ℕ

abbrev pub pcap_packet_header : Layout PcapPacketHeader
pcap_packet_header =
    via (u32 ⊗ u32 ⊗ u32 ⊗ u32)
      (λ h. (h.timestamp_sec, (h.timestamp_usec, (h.include_len, h.original_len))))
      (λ t. record {
        timestamp_sec = t.0;
        timestamp_usec = t.1.0;
        include_len = t.1.1.0;
        original_len = t.1.1.1;
      })
      (λ h. refl) (λ t. refl)

pub record PcapStream : Type 0 where
  pub file : FileStream
  pub file_header : PcapFileHeader

abbrev pub on_file : {A : Type 0} → Exec FileStream A → Exec PcapStream A
on_file = member (λ s. s.file) (λ f s. record s { file = f })

-- What `open` puts into the members before it writes them.
abbrev pub new_header : PcapFileHeader
new_header = record {
  magic = 0xa1b2c3d4;
  version_major = 0x0002;
  version_minor = 0x0004;
  timezone = 0x0000;
  sigfigs = 0x0000;
  snaplen = 0x0000ffff;
  linktype = 0x00000001;
}

-- The method `open`. The parameter `opened` is what `::fopen` returns.
unfoldable pub open_stream : Option File → OpenMode → Exec PcapStream (Unit {0})
open_stream opened pcap_write = do
  on_file (FileStream.fopen opened)
  modify (λ s. record s { file_header = new_header })
  on_file (FileStream.write (pcap_file_header.put new_header))
open_stream opened pcap_read = do
  on_file (FileStream.fopen opened)
  bytes ← on_file (FileStream.read pcap_file_header.size)
  modify (λ s. record s { file_header = pcap_file_header.view bytes })
open_stream opened pcapng_read = raise "pgen::pcap_stream::open: unknown mode \n"
open_stream opened pcapng_write = raise "pgen::pcap_stream::open: unknown mode \n"
open_stream opened netif = raise "pgen::pcap_stream::open: unknown mode \n"

-- The header of a packet of `buflen` bytes.
abbrev pub header_of : ℕ → PcapPacketHeader
header_of buflen = record {
  timestamp_sec = 0;
  timestamp_usec = 0;
  include_len = to_u32 buflen;
  original_len = to_u32 buflen;
}

unfoldable pub send : List ℕ → Exec PcapStream (Unit {0})
send buf = do
  on_file (FileStream.write (pcap_packet_header.put (header_of (length buf))))
  on_file (FileStream.write buf)

-- It returns what `recv` puts at the front of a buffer of `buflen` bytes; their number is the result.
unfoldable pub recv : ℕ → Exec PcapStream (List ℕ)
recv buflen = do
  bytes ← on_file (FileStream.read pcap_packet_header.size)
  throw_if (ltb buflen (pcap_packet_header.view bytes).original_len)
      "pgen::pcap_stream::recv: buffer length is too small"
  on_file (FileStream.read (pcap_packet_header.view bytes).original_len)

pub construct : Option File → OpenMode → Exec PcapStream (Unit {0})
unfolding open_stream
construct opened mode = open_stream opened mode
