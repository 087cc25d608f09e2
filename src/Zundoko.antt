-- ===== src/Zundoko.antt =====
-- example/zundoko/zundoko.h: the message of the game, whose two fields are big-endian, and what the
-- two programs print of it. The socket class is in `Socket`, server.cc in `Server`, client.cc in
-- `Client`.
pub mod Socket
pub mod Server
pub mod Client
pub mod Streak
pub mod Game
pub mod Outcome
pub mod Exchange
pub mod Session
pub mod Link
use libpgen.Base.{
  String, ℕ, zero, suc, ◌+◌, List, [], ◌∷◌, ◌++◌, Option, none, some, drop, ◌==◌, if◌then◌else◌,
}
use libpgen.Base.Bytes.{htons, ntohs}
use libpgen.Base.Splice.{splice}
use libpgen.Base.Text.{Text}
use libpgen.Layout.{u16_put, u16_view}

-- `zundoko::ZUN`, `zundoko::DOKO` and `zundoko::KIYOSHI`
abbrev pub zun : ℕ
zun = 0

abbrev pub doko : ℕ
doko = 1

abbrev pub kiyoshi : ℕ
kiyoshi = 2

-- `ntohs(zd->type)` and `ntohs(zd->message_length)` of a buffer
unfoldable pub type_of : List ℕ → ℕ
type_of buffer = ntohs (u16_view buffer)

unfoldable pub message_length : List ℕ → ℕ
message_length buffer = ntohs (u16_view (drop 2 buffer))

-- `zd->type = htons(type)`
unfoldable pub set_type : ℕ → List ℕ → List ℕ
set_type type buffer = splice 0 (u16_put (htons type)) buffer

-- `zd->message_length = htons(n)`
unfoldable pub set_message_length : ℕ → List ℕ → List ℕ
set_message_length n buffer = splice 2 (u16_put (htons n)) buffer

-- What "%s" prints of bytes: those before the first zero. Without one it reads past the end.
unfoldable pub c_string : List ℕ → Option Text
c_string [] = none
c_string (b ∷ bs) =
    let rest = c_string bs in
    if b == 0 then some [] else elim rest [ none ↦ none | some t ↦ some (b ∷ t) ]
