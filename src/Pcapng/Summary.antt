-- ===== src/Pcapng/Summary.antt =====
-- pgen/io/pcapng_stream.h: what `summary` of each kind of block prints.
use libpgen.Base.{[], ◌++◌, Bool, if◌then◌else◌}
use libpgen.Base.Text.{Text, codes, hex_wide}
use libpgen.Pcapng.{Block}
use libpgen.Pcapng.Epb.{Epb}
use libpgen.Pcapng.Idb.{Idb}
use libpgen.Pcapng.Shb.{Shb}
use libpgen.Util.Dump.{hex}

pub summary_shb : Block Shb → Bool → Text
summary_shb b moreinfo =
    codes "Section Header Block \n"
    ++ (if moreinfo
        then codes "magic : "
          ++ hex_wide 4 b.body.magic
          ++ codes " \nversion_minor: "
          ++ hex_wide 4 b.body.version_minor
          ++ codes " \nversion_major: "
          ++ hex_wide 4 b.body.version_major
          ++ codes " \nsection_length: 0x"
          ++ hex_wide 4 b.body.section_length.0
          ++ hex_wide 4 b.body.section_length.1
          ++ codes " \noption: \n"
          ++ hex b.option
        else [])

pub summary_idb : Block Idb → Bool → Text
summary_idb b moreinfo =
    codes "Interface Description Block \n"
    ++ (if moreinfo
        then codes "link type: "
          ++ hex_wide 2 b.body.link_type
          ++ codes " \nreserved : "
          ++ hex_wide 2 b.body.reserved
          ++ codes " \nsnap length: "
          ++ hex_wide 4 b.body.snap_length
          ++ codes " \noption: \n"
          ++ hex b.option
        else [])

pub summary_epb : Block Epb → Bool → Text
summary_epb b moreinfo =
    codes "Enhanced Packet Block \n" ++ (if moreinfo then codes "Not implemented yet \n" else [])
