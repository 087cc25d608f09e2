-- ===== src/Tests/Blocks.antt =====
-- Pcapng blocks and a pcapng file of two packets, the second of them empty.
use libpgen.Base.{
  min, ◌⊎◌, ℕ, ◌+◌, ◌-◌, ◌%◌, ◌≤◌, ◌≡◌, List, [], ◌∷◌, ◌++◌, none, some, arith, length, replicate,
  take, drop, length-replicate,
}
use libpgen.Base.Run.{ok, throw, fault, ◌>>◌}
use libpgen.Base.Splice.{splice}
use libpgen.FileStream.{File, FileStream, advance}
use libpgen.FileStream.Laws.{file_at, stream}
use libpgen.Layout.{Memory, StandsAt-splice}
use libpgen.Pcapng.{Block, read, write}
use libpgen.Pcapng.Bodies.{epb_contract}
use libpgen.Pcapng.Epb
use libpgen.Pcapng.Epb.{Epb, pad4}
use libpgen.Pcapng.Laws.{IsBlock, image, write_image_block}
use libpgen.Pcapng.ReadBack.{seen_block, read_image_block}
use libpgen.PcapngStream.{open_stream, send, recv, recv_loop, recv_round, packet_block}
use libpgen.PcapngStream.Blocks.{block_bytes, zeros}
use libpgen.Pcapng.Idb
use libpgen.Pcapng.Shb
use libpgen.PcapngStream.Mixed.{Item, section, interface, IsRight, items, recv_each-mixed}
use libpgen.PcapngStream.Opening.{shb-IsBlock, idb-IsBlock}
use libpgen.PcapngStream.Packets.{
  IsSendable, record_of, packet_block-IsBlock, set_packet-total, length-record_of,
}
use libpgen.PcapngStream.Rounds.{recv_round_packet}
use libpgen.PcapngStream.RoundTrip.{FitsBuffer, pcapng-IsCapture, recv_each-send_each_pcapng}
use libpgen.PcapngStream.Overflow.{recv-send_overflow}
use libpgen.PcapngStream.Termination.{recv_loop-total}
use libpgen.Stream.{pcapng_read, pcapng_write}
use libpgen.Stream.Capture.{IsCapture, send_each, recv_each}

abbrev fresh : Memory
fresh = replicate 1000 0

fresh-length : length fresh ≡ 1000
fresh-length = length-replicate {A = ℕ} 1000 0

abbrev closed_file : FileStream
closed_file = record { fd = none }

abbrev packets_sent : List (List ℕ)
packets_sent = (1 ∷ 2 ∷ 3 ∷ []) ∷ [] ∷ []

recv_each-send_each_pcapng_example :
    (bytes : List ℕ) × (done : FileStream) × (end : FileStream) × ((open_stream fresh
            (some (file_at [] [] 200))
            pcapng_write
          >> send_each send packets_sent)
        closed_file
      ≡ ok tt (stream (file_at bytes [] (200 - length bytes))))
    × ((open_stream fresh (some (file_at [] bytes 0)) pcapng_read
            >> recv_each (recv fresh 10) (length packets_sent))
          closed_file
        ≡ ok packets_sent done)
    × (recv fresh 10 done ≡ throw "pgen::pcapng_stream::recv: is end of file" end)
unfolding Epb.set_packet Epb.construct
recv_each-send_each_pcapng_example =
    recv_each-send_each_pcapng packets_sent fresh fresh 200 10 closed_file closed_file fresh-length
      fresh-length (omega arith, (omega arith, tt)) (omega arith, (omega arith, tt)) (omega arith)

pcapng-IsCapture_example : IsCapture send (recv fresh) FitsBuffer record_of stream
pcapng-IsCapture_example = pcapng-IsCapture fresh fresh-length

recv_loop-total_example :
    ¬ (recv_loop 4 fresh 10 (stream (file_at [] (1 ∷ 2 ∷ 3 ∷ []) 0)) ≡ ok none closed_file)
recv_loop-total_example =
    recv_loop-total 4 fresh 10 (stream (file_at [] (1 ∷ 2 ∷ 3 ∷ []) 0)) closed_file (omega arith)

abbrev large : List ℕ
large = replicate 969 7

abbrev new_file : File
new_file = file_at [] [] 2000

recv-send_overflow_example :
    (send large (stream new_file) ≡ ok tt (stream (advance (record_of large) new_file)))
    × (recv fresh 1500 (stream (file_at [] (record_of large ++ []) 0)) ≡ fault)
recv-send_overflow_example =
    recv-send_overflow large new_file [] [] 0 1500 fresh
      (omega (arith, length-replicate {A = ℕ} 969 7))
      (omega (arith, length-replicate {A = ℕ} 969 7))
      (omega (
        arith,
        length-record_of large (omega (arith, length-replicate {A = ℕ} 969 7)),
        length-replicate {A = ℕ} 969 7,
      ))
      fresh-length

abbrev three : List ℕ
three = 1 ∷ 2 ∷ 3 ∷ []

abbrev block : Block Epb
block = packet_block three

block-IsBlock : IsBlock epb_contract block
block-IsBlock = packet_block-IsBlock three (omega arith)

set_packet-total_example :
    let t = block.total_length in
    (IsSendable three × (t ≡ 12 + pad4 (20 + 3)) × (t % 4 ≡ 0) × (3 + 32 ≤ t) × (t ≤ 3 + 35))
    ⊎ ((4294967296 ≤ 3 + 35) × (t ≤ 32))
set_packet-total_example = set_packet-total three (omega arith)

write_image_block_example :
    write Epb.ops block 4 100 (replicate 104 9)
    ≡ ok tt (splice 4 (image epb_contract block (drop 12 (replicate 104 9))) (replicate 104 9))
unfolding Epb.set_packet Epb.construct
write_image_block_example =
    write_image_block epb_contract block 4 100 (replicate 104 9) block-IsBlock (omega arith)
      (omega arith) (omega arith)

abbrev buffer : Memory
buffer = splice 2 (block_bytes epb_contract block) (replicate 50 9)

read_image_block_example :
    read Epb.ops buffer 2 40 (Epb.construct [])
    ≡ ok tt (seen_block epb_contract block (drop 10 buffer))
unfolding Epb.set_packet Epb.construct
read_image_block_example =
    read_image_block epb_contract block (Epb.construct []) (zeros block) buffer 2 40 (omega arith)
      block-IsBlock (omega arith) (omega arith) (omega arith)
      (StandsAt-splice (block_bytes epb_contract block) (replicate 50 9) 2 (omega arith))

recv_round_packet_example :
    let xs = block_bytes epb_contract block in
    recv_round fresh 2 (stream (file_at [] (xs ++ []) 0))
    ≡ ok
        (some (take (min 2 block.body.fields.packet_length) (drop 28 (splice 0 xs fresh))))
        (stream (file_at xs [] 0))
unfolding Epb.set_packet Epb.construct
recv_round_packet_example =
    recv_round_packet block [] [] 0 2 fresh block-IsBlock (omega (arith, fresh-length))
      (omega (arith, fresh-length))

-- A section and an interface, and behind each of them a packet.
abbrev mixed : List Item
mixed =
    record {
      before = section Shb.construct ∷ interface Idb.construct ∷ [];
      packet = 1 ∷ 2 ∷ 3 ∷ [];
    }
    ∷ record { before = interface Idb.construct ∷ []; packet = [] }
    ∷ []

interface-IsRight : IsRight (interface Idb.construct)
unfolding Idb.construct
interface-IsRight = (idb-IsBlock, omega arith)

section-IsRight : IsRight (section Shb.construct)
unfolding Shb.construct
section-IsRight = (shb-IsBlock, omega arith)

recv_each-mixed_example :
    recv_each (recv fresh 10) 2 (stream (file_at [] (items mixed ++ []) 0))
    ≡ ok ((1 ∷ 2 ∷ 3 ∷ []) ∷ [] ∷ []) (stream (file_at ([] ++ items mixed) [] 0))
recv_each-mixed_example =
    recv_each-mixed mixed [] [] 0 10 fresh
      ((section-IsRight, (interface-IsRight, tt)), ((interface-IsRight, tt), tt))
      (omega arith, (omega arith, tt)) (omega arith, (omega arith, tt)) fresh-length
