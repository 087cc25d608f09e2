-- ===== src/Pcapng/Epb.antt =====
-- pgen/io/pcapng_stream.h: the class `pcapng_EPB`, the enhanced packet block. Its packet is the memory
-- that `packet_data_pointer` points to: the bytes from the pointer on.
use libpgen.Base.{ℕ, ◌+◌, ◌-◌, ◌%◌, List, [], ◌==◌, not, ltb, refl, length, drop, if◌then◌else◌}
use libpgen.Base.Bytes.{to_u32}
use libpgen.Base.Run.{Exec, modify, get, throw_if, ◌>>=◌, ◌>>◌}
use libpgen.Layout.{Layout, Memory, u32, ◌⊗◌, via, cast, fetch, store}
use libpgen.Pcapng.{Block, BodyOps, enhanced_packet}

-- `struct epb_struct`
pub record EpbStruct : Type 0 where
  pub interface_id : ℕ
  pub timestamp_high : ℕ
  pub timestamp_low : ℕ
  pub capture_length : ℕ
  pub packet_length : ℕ

abbrev pub epb_struct : Layout EpbStruct
epb_struct =
    via (u32 ⊗ u32 ⊗ u32 ⊗ u32 ⊗ u32)
      (λ s. (
        s.interface_id,
        (s.timestamp_high, (s.timestamp_low, (s.capture_length, s.packet_length))),
      ))
      (λ t. record {
        interface_id = t.0;
        timestamp_high = t.1.0;
        timestamp_low = t.1.1.0;
        capture_length = t.1.1.1.0;
        packet_length = t.1.1.1.1;
      })
      (λ s. refl) (λ t. refl)

-- The class's own members: those of the struct, and the pointer.
pub record Epb : Type 0 where
  pub fields : EpbStruct
  pub packet : List ℕ

-- Up to the next multiple of four.
abbrev pub pad4 : ℕ → ℕ
pad4 n = if n % 4 == 0 then n else n + (4 - n % 4)

abbrev pub body_length : Epb → ℕ
body_length e = pad4 (20 + e.fields.capture_length)

-- The constructor leaves the pointer as it is: `packet` is what it happens to point to.
unfoldable pub construct : List ℕ → Block Epb
construct packet = record {
  type = enhanced_packet;
  total_length = 8 + 20 + 0 + 4;
  option = [];
  body = record {
    fields = record {
      interface_id = 0;
      timestamp_high = 0;
      timestamp_low = 0;
      capture_length = 0;
      packet_length = 0;
    };
    packet = packet;
  };
}

unfoldable pub read_body : List ℕ → ℕ → ℕ → Exec (Block Epb) (Unit {0})
read_body buf at len = do
  b ← get
  throw_if (not (b.type == enhanced_packet)) "pgen::pcapng_EPB::read: this is not EPB"
  throw_if (ltb len epb_struct.size) "pgen::pcapng_IDB::read_body: bufferlen is too small"
  s ← cast epb_struct buf at
  modify (λ c. record c { body = record { fields = s; packet = c.body.packet } })
  c ← get
  throw_if (ltb len (body_length c.body)) "pgen::pcapng_IDB::read_body: bufferlen is too small"
  modify (λ d. record d { body = record { fields = d.body.fields; packet = drop (at + 20) buf } })

unfoldable pub write_body : Epb → ℕ → ℕ → Exec Memory (Unit {0})
write_body e at len = do
  throw_if (ltb len (body_length e)) "pgen::pcapng_IDB::write_body: bufferlen is too small"
  store (epb_struct.put e.fields) at
  bytes ← fetch e.packet 0 e.fields.capture_length
  store bytes (at + 20)

abbrev pub ops : BodyOps Epb
ops = record { body_length = body_length; read_body = read_body; write_body = write_body }

-- `total_length` after `set_packet`.
abbrev pub added_length : ℕ → ℕ → ℕ
added_length total n =
    if n % 4 == 0 then to_u32 (total + n) else to_u32 (to_u32 (total + n) + (4 - n % 4))

unfoldable pub set_packet : List ℕ → Block Epb → Block Epb
set_packet packet b = record b {
  total_length = added_length b.total_length (length packet);
  body = record {
    fields = record b.body.fields {
      capture_length = to_u32 (length packet);
      packet_length = to_u32 (length packet);
    };
    packet = packet;
  };
}
