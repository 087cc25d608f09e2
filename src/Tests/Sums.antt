-- ===== src/Tests/Sums.antt =====
-- The checksum of small messages.
use libpgen.Base.{ℕ, List, ◌+◌, ◌%◌, ◌<◌, ◌≡◌, [], ◌∷◌, ◌++◌, refl, replicate, arith}
use libpgen.Base.Bytes.{ntohs}
use libpgen.Base.Run.{ok}
use libpgen.Header.Ipv4.Laws.{cleared, cleared-IsValid}
use libpgen.Header.Ipv4.{Ipv4Header}
use libpgen.Header.Ipv4.Valid as Ipv4Valid
use libpgen.Header.Udp.Laws as UdpLaws
use libpgen.Header.Udp.Sum as UdpSum
use libpgen.Header.Udp.Sum.{calc_checksum-payload}
use libpgen.Ipv4Address
use libpgen.Tests.Data.{any_ip, any_udp, any_udp-IsValid}
use libpgen.Util.{checksum}
use libpgen.Util.Checksum.{word_sum, checksum_verifies, checksum_misses_carry}

checksum_verifies_example :
    (checksum 0 (69 ∷ 0 ∷ 20 ∷ []) < 65536)
    × ((word_sum (69 ∷ 0 ∷ 20 ∷ []) + checksum 0 (69 ∷ 0 ∷ 20 ∷ [])) % 65535 ≡ 0)
checksum_verifies_example =
    checksum_verifies (69 ∷ 0 ∷ 20 ∷ []) (omega arith) (omega arith) (omega arith)

-- Three words, two of them 0xffff: the sum is 0x1ffff, and its carry makes another.
checksum_misses_carry_example :
    (word_sum (255 ∷ 255 ∷ 255 ∷ 255 ∷ 1 ∷ 0 ∷ [])
        + checksum 0 (255 ∷ 255 ∷ 255 ∷ 255 ∷ 1 ∷ 0 ∷ []))
      % 65535
    ≡ 1
checksum_misses_carry_example =
    checksum_misses_carry (255 ∷ 255 ∷ 255 ∷ 255 ∷ 1 ∷ 0 ∷ []) (omega arith) (omega arith)
      (omega arith)

-- An IPv4 header that says that ten bytes of UDP follow.
abbrev ten_behind : Ipv4Header
ten_behind = record (cleared any_ip) { tot_len = 30; protocol = 17 }

ten_behind-IsValid : Ipv4Valid.IsValid ten_behind
ten_behind-IsValid =
    let v = cleared-IsValid any_ip in
    record {
      version = v.version;
      hlen_low = v.hlen_low;
      hlen_high = v.hlen_high;
      tos = v.tos;
      tot_len = omega arith;
      id = v.id;
      frag_off = v.frag_off;
      ttl = v.ttl;
      protocol = omega arith;
      check = v.check;
      src = v.src;
      dst = v.dst;
      option_room = v.option_room;
      option_bytes = v.option_bytes;
    }

calc_checksum-payload_example :
    let pseudo : List ℕ = replicate 8 0 ++ 0 ∷ 17 ∷ 0 ∷ 10 ∷ [] in
    let bytes = (pseudo ++ UdpLaws.image any_udp) ++ 104 ∷ 105 ∷ [] in
    UdpSum.calc_checksum 0 ten_behind (104 ∷ 105 ∷ []) any_udp ≡ ok (ntohs (checksum 0 bytes)) bytes
unfolding Ipv4Address.clear
calc_checksum-payload_example =
    calc_checksum-payload 0 10 ten_behind (104 ∷ 105 ∷ []) any_udp any_udp-IsValid
      ten_behind-IsValid refl
