-- ===== src/Stream.antt =====
-- pgen/io/stream.h: the modes in which a stream is opened.
pub mod Capture
pub mod Packets
use libpgen.Base.Text.{Text, codes}

-- `open_mode`
pub data OpenMode : Type 0 where
  pcap_read pcap_write pcapng_read pcapng_write netif : OpenMode

-- What `print_mode` prints. The label `defult` is no case.
pub print_mode : OpenMode → Text
print_mode pcap_read = codes "pcap_read mode \n"
print_mode pcap_write = codes "pcap_write mode \n"
print_mode pcapng_read = codes "pcapng_read mode \n"
print_mode pcapng_write = codes "pcapng_write mode \n"
print_mode netif = codes "netif mode \n"
