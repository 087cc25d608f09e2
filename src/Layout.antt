-- ===== src/Layout.antt =====
-- How a C struct lies in memory. The headers cast a byte pointer to a packed struct and read or
-- assign its fields; a `Layout` is the byte image of such a struct on a little-endian host, with
-- the laws that make it one. `Words` and `Combine` build the layouts, `Access` applies them to
-- memory.
mod Defs
mod Words
mod Combine
mod Access
mod Checked
mod Stands
pub use Defs.{Layout}
pub use Words.{u8, u16, u32, nibbles, u16_put, u16_view, u16_view-put}
pub use Combine.{◌⊗◌, via, array, words}
pub use Access.*
pub use Checked.*
pub use Stands.*
