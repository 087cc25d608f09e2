-- ===== src/Packet/Dump.antt =====
-- pgen/core/packet.h: the method `hex`.
use libpgen.Base.{ℕ, ◌≡◌, ◌∙◌, ap, List, arith, length, take, take-length}
use libpgen.Base.Run.{Exec, ok, pure, ◌>>=◌, >>=-ok}
use libpgen.Base.Text.{Text}
use libpgen.Layout.{fetch, within_bounds}
use libpgen.Packet.{Packet, raw, length_of}
use libpgen.Util.Dump as Util

-- `pgen::hex(raw(), length());`: what it prints.
unfoldable pub hex : Exec Packet Text
hex = do own ← raw; n ← length_of; bytes ← fetch own 0 n; pure (Util.hex bytes)

hex_lem :
    (p : Packet) (bytes : List ℕ)
    → raw p ≡ ok bytes p
    → length_of p ≡ ok (length bytes) p
    → hex p ≡ ok (Util.hex bytes) p
unfolding hex
hex_lem p bytes back long =
    >>=-ok raw _ p back
    ∙ >>=-ok length_of _ p long
    ∙ >>=-ok (fetch bytes 0 (length bytes)) _ p (
        within_bounds bytes 0 (length bytes) (take (length bytes) bytes) p (omega arith)
        ∙ ap (λ xs. ok xs p) (take-length bytes (length bytes) (omega arith)))
