-- ===== src/Protocol.antt =====
-- pgen/core/protocol: what the packet classes of the five protocols share, and `operator =` of
-- packet. A class is its headers as members, `clear`, and `init_headers`, which points `headers` at
-- the members. Before a constructor runs the members hold any values, and so does `_type`, which no
-- constructor sets.
pub mod Ethernet
pub mod Arp
pub mod Ipv4
pub mod Ipv6
pub mod Udp
pub mod Laws
pub mod Classes
use libpgen.Base.{ℕ, List, ◌==◌, not, length, if◌then◌else◌}
use libpgen.Base.Run.{Run, ok, throw, fault, Exec}
use libpgen.DataContainer
use libpgen.Header.{Header}
use libpgen.Packet.{Packet, PacketType, analyze}

-- A class: the members are `M`.
pub record PacketClass (M : Type 0) : Type 0 where
  pub clear : Exec M (Unit {0})
  pub init_headers : M → List Header

module _ {M : Type 0} (c : PacketClass M) where
  abbrev pub started : PacketType → Run M (Unit {0}) → Run Packet (Unit {0})
  started type (ok _ m) =
      ok tt (record { type = type; raw = DataContainer.construct 128; headers = c.init_headers m })
  started type (throw e m) =
      throw e
        (record { type = type; raw = DataContainer.construct 128; headers = c.init_headers m })
  started type fault = fault

  -- The constructor without arguments: `clear(); init_headers();`
  unfoldable pub construct : PacketType → M → Run Packet (Unit {0})
  construct type members = started type (c.clear members)

  abbrev pub analyzed : List ℕ → ℕ → Run Packet (Unit {0}) → Run Packet (Unit {0})
  analyzed buf len (ok _ p) = analyze buf len p
  analyzed buf len (throw e p) = throw e p
  analyzed buf len fault = fault

  -- The constructor from a buffer: the one without arguments, then `analyze`.
  unfoldable pub construct_from : PacketType → M → List ℕ → ℕ → Run Packet (Unit {0})
  unfolding construct
  construct_from type members buf len = analyzed buf len (construct type members)

-- `packet(rhs)` and the assignment of each member: the copy constructor of all classes but arp.
unfoldable pub copy : Packet → Packet
copy rhs = record { type = rhs.type; raw = rhs.raw; headers = rhs.headers }

-- `packet::operator =`: it compares the numbers of headers. What it then assigns are objects of the
-- class `header`, which has no members, and it copies neither `_raw` nor `_type`.
unfoldable pub assign : Packet → Exec Packet (Unit {0})
assign rhs p =
    if not (length rhs.headers == length p.headers)
    then throw "pgen::packet::operator=: not same packet type" p
    else ok tt p
