-- ===== src/Pcapng/Idb.antt =====
-- pgen/io/pcapng_stream.h: the class `pcapng_IDB`, the interface description block.
use libpgen.Base.{ℕ, ◌+◌, List, [], ◌==◌, not, ltb, refl}
use libpgen.Base.Run.{Exec, modify, get, throw_if, ◌>>=◌, ◌>>◌}
use libpgen.Layout.{Layout, Memory, u16, u32, ◌⊗◌, via, cast, store}
use libpgen.Pcapng.{Block, BodyOps, interface_description}

-- The class's own members, and `struct idb_struct`, which has the same.
pub record Idb : Type 0 where
  pub link_type : ℕ
  pub reserved : ℕ
  pub snap_length : ℕ

abbrev pub idb_struct : Layout Idb
idb_struct =
    via (u16 ⊗ u16 ⊗ u32) (λ s. (s.link_type, (s.reserved, s.snap_length)))
      (λ t. record { link_type = t.0; reserved = t.1.0; snap_length = t.1.1 }) (λ s. refl)
      (λ t. refl)

-- `link_types::ethernet`
abbrev pub link_ethernet : ℕ
link_ethernet = 1

unfoldable pub construct : Block Idb
construct = record {
  type = interface_description;
  total_length = 8 + 8 + 0 + 4;
  option = [];
  body = record { link_type = link_ethernet; reserved = 0; snap_length = 0 };
}

abbrev pub body_length : Idb → ℕ
body_length s = 8

unfoldable pub read_body : List ℕ → ℕ → ℕ → Exec (Block Idb) (Unit {0})
read_body buf at len = do
  b ← get
  throw_if (not (b.type == interface_description)) "pgen::pcapng_IDB::read: this is not IDB"
  throw_if (ltb len (body_length b.body)) "pgen::pcapng_IDB::read_body: bufferlen is too small"
  s ← cast idb_struct buf at
  modify (λ c. record c { body = s })

unfoldable pub write_body : Idb → ℕ → ℕ → Exec Memory (Unit {0})
write_body s at len = do
  throw_if (ltb len (body_length s)) "pgen::pcapng_IDB::write_body: bufferlen is too small"
  store (idb_struct.put s) at

abbrev pub ops : BodyOps Idb
ops = record { body_length = body_length; read_body = read_body; write_body = write_body }
