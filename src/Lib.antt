-- ===== src/Lib.antt =====
-- libpgen builds and takes apart network packets. This library models its core: the classes under
-- pgen/core, the checksum of pgen/util.h, the capture files and interfaces of pgen/io, the functions of
-- pgen/module.h, and two of the examples.
--
-- The parts and how they interact:
--
-- pgen/util.h: Util (read_as_little_endian, read_as_big_endian, checksum, bin) and Util/Dump (the text of
-- hex); Util/Checksum compares the checksum with RFC 1071.
--
-- pgen/core/macaddress.h and pgen/core/ipaddress.h: MacAddress, Ipv4Address, Ipv6Address. An address is
-- its octets and the text kept beside them, and each method that changes the octets updates the text.
-- sscanf and sprintf are written out for the formats in use (Base/Text, MacAddress/Format); inet_pton is
-- a parameter. The Laws files hold the invariants. Device is setbydev of the three classes, with
-- getmacbydev, getipv4bydev and getipv6bydev, over system calls that are parameters; Device/Inet6 is about
-- the last of the three.
--
-- pgen/core/data_container.h: DataContainer, a vector of bytes with 128 bytes in front for headers.
--
-- pgen/core/header.h and pgen/core/protocol: Header/Contract is the interface (write, read, length) as a
-- record of operations, with the contract that an implementation keeps. Header/Ethernet, Header/Arp,
-- Header/Ipv4, Header/Ipv6 and Header/Udp are the classes ethernet_header, arp_header, ipv4_header,
-- ipv6_header and udp_header with their clear, write, read and length; the packed structs that they
-- cast a pointer to are layouts (Layout), which turn a struct into bytes and back. Header is a pointer to
-- the base class: a value of one of the five, with dispatch. Header/Struct proves the contract for all
-- headers that are one struct, Header/Ipv4/Read and Header/Ipv4/Write for the one with options.
-- Header/Ipv4/Sum and Header/Udp/Sum are calc_checksum of the two classes. Header/Summary is summary of
-- all five, as the text that it prints.
--
-- pgen/core/packet.h: Packet is the class packet (set_contents, contents, raw, length, header_length,
-- compile, analyze). compile calls write of each header from the last to the first, downwards from the
-- pivot of the container; analyze calls read of each from the first to the last, and gives the rest of
-- the buffer to set_contents. Packet/Dump is the method hex. Protocol is what the classes ethernet, arp, ipv4, ipv6 and udp share, their
-- constructors, and Protocol/Ethernet and its neighbours are the members, clear and init_headers of each;
-- Protocol/Laws says what clear has to do, and Protocol/Classes that all five do it.
--
-- pgen/io: FileStream is file_stream.h over the C library's files, PcapStream is pcap_stream.h. Pcapng
-- and PcapngStream are pcapng_stream.h: Pcapng is the class pcapng_block (read, write, and the parts that
-- every block has), Pcapng/Shb, Pcapng/Idb and Pcapng/Epb are the three classes of blocks with their
-- body_length, read_body and write_body; Pcapng/Contract is what these have to do, Pcapng/Bodies that they
-- do it, and Pcapng/Laws and Pcapng/ReadBack what write and read then do. PcapngStream is the class
-- pcapng_stream (open, send, recv, write_block, read_block, detect_pcapng_blocktype), and
-- PcapngStream/Mixed are files with several sections and interfaces; Pcapng/Summary is what summary of a
-- block prints. Stream is stream.h;
-- Stream/Capture is what send and recv of a stream over a file promise, and how whole files follow from
-- that; Stream/Packets is operator<< of packet.h. NetStream is net_stream.h over system calls that are
-- parameters, NetStream/Linux what it does on Linux, and NetStream/Bsd on OS X.
--
-- pgen/module.h: Module is check, which puts PcapStream and Packet together, and Module/Detect the
-- functions detect_*. The constants that these name, which no file declares, are parameters.
--
-- pgen/exception.h: Exception, what becomes of the text of an exception.
--
-- example/zundoko: Zundoko is the message of zundoko.h, Zundoko/Socket its socket class over system calls
-- that are parameters, Zundoko/Server the state machine and the loop of server.cc, and Zundoko/Client a
-- round of client.cc. Zundoko/Streak counts ZUN without the states, Zundoko/Game and Zundoko/Outcome are
-- about the server on a network that hands over datagrams in order, and Zundoko/Exchange and
-- Zundoko/Session about a client and a user of it. Zundoko/Link joins the two programs by two queues. What the programs print is a text in the state.
--
-- example/tmp/pgen_extend/tmp.h: Tmp is a header class that a user adds, clear of its packet class, and
-- is_tmp_packet.
--
-- How code is modelled: a method is a function from the object to a result, in Base/Run: it returns a
-- value and the object, or throws with the object as it was left, or faults where C++ leaves the
-- behaviour undefined or an assertion fails. Memory is a list of bytes, and a pointer is an offset into
-- it; each access is checked against the bytes that exist, and one outside them faults. Integers are
-- natural numbers with the wrap-around of their width written out; size_t has 64 bits. The host is
-- little-endian. What C++ leaves uninitialised is an argument that stands for any value: the sum of
-- checksum, the buffers of calc_checksum, and the members before a constructor. The loops run over the
-- list of headers or of bytes; those of recv of a pcapng_stream and of check run for a number of rounds,
-- and more rounds than the file has bytes left, or packets, are enough. The calls of read of a net_stream
-- on itself are counted as well. A buffer given to analyze is shorter than 2^64.
--
-- The server of the example is followed for as many rounds as datagrams wait. exit of an example
-- program is a throw that nothing handles.
--
-- Not modelled: protocol/zundoko.h, which is compiled out, mode of a stream, whose member no stream sets,
-- the packet class of tmp.h as one of the kinds of packets, and the other examples and the tests, which
-- only call the library. A device that fails to read, a failing fflush, and feof of a file that was opened
-- to write, are not modelled.
pub mod Base
pub mod Layout
pub mod MacAddress
pub mod Ipv4Address
pub mod Ipv6Address
pub mod Exception
pub mod Device
pub mod Header
pub mod Util
pub mod DataContainer
pub mod Packet
pub mod Protocol
pub mod Stream
pub mod FileStream
pub mod PcapStream
pub mod Pcapng
pub mod PcapngStream
pub mod NetStream
pub mod Module
pub mod Zundoko
pub mod Tmp
pub mod Tests
