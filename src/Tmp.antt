-- ===== src/Tmp.antt =====
-- example/tmp/pgen_extend/tmp.h: a header and a packet class that a user adds to the library. What
-- `pgen::ethernet::type::ip` is, which no file of the repository declares, is a parameter.
pub mod Laws
use libpgen.Base.{
  ℕ, ◌+◌, ◌*◌, ◌/◌, ◌%◌, List, [], ◌∷◌, ◌++◌, refl, Bool, true, false, length, ltb, ◌==◌, ◌||◌, not,
  if◌then◌else◌,
}
use libpgen.Base.Bytes.{htons, sub_size}
use libpgen.Base.Run.{Exec, pure, get, modify, member, throw_if, ◌>>=◌, ◌>>◌}
use libpgen.Base.Text.{Text, codes, decimal32, hex_wide, until_zero}
use libpgen.Header.Ethernet
use libpgen.Header.Ethernet.{EthernetHeader}
use libpgen.Header.Ipv4
use libpgen.Header.Ipv4.{Ipv4Header}
use libpgen.Header.Udp
use libpgen.Header.Udp.{UdpHeader}
use libpgen.Ipv4Address.{Pton}
use libpgen.Layout.{Layout, u16, u32, ◌⊗◌, via, Memory, cast, fetch, store}

-- `htonl`, on a little-endian host.
unfoldable pub htonl : ℕ → ℕ
htonl x = x % 256 * 16777216 + x / 256 % 256 * 65536 + x / 65536 % 256 * 256 + x / 16777216 % 256

-- `struct tmp_s`
pub record TmpStruct : Type 0 where
  pub id : ℕ
  pub seq : ℕ
  pub msglen : ℕ

abbrev pub tmp_struct : Layout TmpStruct
tmp_struct =
    via (u32 ⊗ u16 ⊗ u16) (λ p. (p.id, (p.seq, p.msglen)))
      (λ t. record { id = t.0; seq = t.1.0; msglen = t.1.1 }) (λ p. refl) (λ t. refl)

pub record TmpHeader : Type 0 where
  pub id : ℕ
  pub seq : ℕ
  pub msglen : ℕ
  pub msg : Text

-- `sizeof(uint8_t)*4`, where the struct has eight bytes.
abbrev pub min_length : ℕ
min_length = 4

pub clear : Exec TmpHeader (Unit {0})
clear = modify (λ h. record { id = 0; seq = 0; msglen = 0; msg = [] })

unfoldable pub write : TmpHeader → ℕ → ℕ → Exec Memory (Unit {0})
write h at bufferlen = do
  throw_if (ltb bufferlen min_length) "pgen::tmp_header::write: buflen is too small"
  store (tmp_struct.put (record { id = htonl h.id; seq = htons h.seq; msglen = htons h.msglen })) at
  throw_if (ltb (sub_size bufferlen 8) h.msglen) "pgen::tmp_header::write: buflen is too small"
  store h.msg (at + 8)

unfoldable pub read : List ℕ → ℕ → ℕ → Exec TmpHeader (Unit {0})
read buf at bufferlen = do
  throw_if (ltb bufferlen min_length) "pgen::tmp_header::read: buflen is too small"
  p ← cast tmp_struct buf at
  modify (λ h. record h { id = htonl p.id; seq = htons p.seq; msglen = htons p.msglen })
  h ← get
  throw_if (ltb (sub_size bufferlen 8) h.msglen) "pgen::tmp_header::write: buflen is too small"
  message ← fetch buf (at + 8) h.msglen
  modify (λ h. record h { msg = until_zero message })

unfoldable pub length_of : TmpHeader → ℕ
length_of h = min_length + h.msglen

pub summary : TmpHeader → Bool → Text
summary h moreinfo =
    codes "TMP[id=0x"
    ++ hex_wide 4 h.id
    ++ codes ", seq="
    ++ decimal32 h.seq
    ++ codes ", msg="
    ++ until_zero h.msg
    ++ codes "]\n"
    ++ (if moreinfo
        then codes " - id    : 0x"
          ++ hex_wide 4 h.id
          ++ codes " \n"
          ++ codes " - seq   : "
          ++ decimal32 h.seq
          ++ codes " \n"
          ++ codes " - msglen: "
          ++ decimal32 h.msglen
          ++ codes " \n"
          ++ codes " - msg   : "
          ++ until_zero h.msg
          ++ codes " \n"
        else [])

-- The class `tmp`.
pub record Tmp : Type 0 where
  pub tmp_header : TmpHeader
  pub udp : UdpHeader
  pub ip : Ipv4Header
  pub eth : EthernetHeader

-- It does not clear the member TMP, whose length the two sums use.
pub clear_packet : ℕ → Pton → Exec Tmp (Unit {0})
unfolding length_of
clear_packet ip_type inet_pton = do
  member (λ p. p.eth) (λ h p. record p { eth = h }) Ethernet.clear
  modify (λ p. record p { eth = record p.eth { type = ip_type } })
  member (λ p. p.ip) (λ h p. record p { ip = h }) (Ipv4.clear inet_pton)
  modify (λ p. record p { ip = record p.ip { protocol = 17 } })
  p ← get
  let tot_len = Ipv4.length_of p.ip + Udp.length_of p.udp + length_of p.tmp_header
  modify (λ p. record p { ip = record p.ip { tot_len = tot_len % 65536 } })
  member (λ p. p.udp) (λ h p. record p { udp = h }) Udp.clear
  modify (λ p. record p { udp = record p.udp { src = 8888; dst = 8888 } })
  p ← get
  let len = Udp.length_of p.udp + length_of p.tmp_header
  modify (λ p. record p { udp = record p.udp { len = len % 65536 } })

-- The local headers of `is_tmp_packet` are taken as the members of an object of the class. They hold
-- any values at first.
pub is_tmp_packet : ℕ → List ℕ → ℕ → ℕ → Exec Tmp Bool
is_tmp_packet ip_type buf at len = do
  member (λ p. p.eth) (λ h p. record p { eth = h }) (Ethernet.read buf at len)
  p ← get
  let at_ip = at + Ethernet.length_of p.eth
  let len_ip = sub_size len (Ethernet.length_of p.eth)
  if not (p.eth.type == ip_type) then pure false else do
    member (λ p. p.ip) (λ h p. record p { ip = h }) (Ipv4.read buf at_ip len_ip)
    p ← get
    let at_udp = at_ip + Ipv4.length_of p.ip
    let len_udp = sub_size len_ip (Ipv4.length_of p.ip)
    if not (p.ip.protocol == 17) then pure false else do
      member (λ p. p.udp) (λ h p. record p { udp = h }) (Udp.read buf at_udp len_udp)
      p ← get
      pure (p.udp.src == 8888 || p.udp.dst == 8888)
