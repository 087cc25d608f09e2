-- ===== src/Pcapng/Shb.antt =====
-- pgen/io/pcapng_stream.h: the class `pcapng_SHB`, the section header block.
use libpgen.Base.{ℕ, ◌+◌, List, [], ◌==◌, not, ltb, refl}
use libpgen.Base.Run.{Exec, modify, get, throw_if, ◌>>=◌, ◌>>◌}
use libpgen.Layout.{Layout, Memory, u16, u32, ◌⊗◌, via, cast, store}
use libpgen.Pcapng.{Block, BodyOps, section_header}

-- The class's own members, and `struct shb_struct`, which has the same.
pub record Shb : Type 0 where
  pub magic : ℕ
  pub version_major : ℕ
  pub version_minor : ℕ
  pub section_length : ℕ × ℕ

abbrev pub shb_struct : Layout Shb
shb_struct =
    via (u32 ⊗ u16 ⊗ u16 ⊗ u32 ⊗ u32)
      (λ s. (s.magic, (s.version_major, (s.version_minor, s.section_length))))
      (λ t. record {
        magic = t.0;
        version_major = t.1.0;
        version_minor = t.1.1.0;
        section_length = t.1.1.1;
      })
      (λ s. refl) (λ t. refl)

unfoldable pub construct : Block Shb
construct = record {
  type = section_header;
  total_length = 8 + 16 + 0 + 4;
  option = [];
  body = record {
    magic = 0x1a2b3c4d;
    version_major = 0x0001;
    version_minor = 0x0000;
    section_length = (0xffffffff, 0xffffffff);
  };
}

abbrev pub body_length : Shb → ℕ
body_length s = 16

unfoldable pub read_body : List ℕ → ℕ → ℕ → Exec (Block Shb) (Unit {0})
read_body buf at len = do
  b ← get
  throw_if (not (b.type == section_header)) "pgen::pcapng_SHB::read_body: this is not SHB"
  throw_if (ltb len (body_length b.body)) "pgen::pcapng_SHB::read_body: bufferlen is too small"
  s ← cast shb_struct buf at
  modify (λ c. record c { body = s })

unfoldable pub write_body : Shb → ℕ → ℕ → Exec Memory (Unit {0})
write_body s at len = do
  throw_if (ltb len (body_length s)) "pgen::pcapng_SHB::write_body: bufferlen is too small"
  store (shb_struct.put s) at

abbrev pub ops : BodyOps Shb
ops = record { body_length = body_length; read_body = read_body; write_body = write_body }
