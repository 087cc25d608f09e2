-- ===== src/DataContainer.antt =====
-- pgen/core/data_container.h: the bytes of a packet, with a fixed space for headers in front.
pub mod Laws
use libpgen.Base.{
  ℕ, ◌-◌, List, ◌++◌, Option, none, some, length, take, replicate, ltb, if◌then◌else◌,
}
use libpgen.Base.Int.{ℤ, pos, negsuc}
use libpgen.Base.Run.{Exec, throw_if, member, fault, ok, throw, ◌>>◌}
use libpgen.Layout.{Memory, store}

pub record DataContainer : Type 0 where
  pub vec : List ℕ
  pub pivot : ℕ

-- `std::vector::resize(n, 0)`
abbrev pub resize : ℕ → List ℕ → List ℕ
resize n xs = take n xs ++ replicate (n - length xs) 0

unfoldable pub construct : ℕ → DataContainer
construct pivot = record { vec = replicate pivot 0; pivot = pivot }

unfoldable pub size : DataContainer → ℕ
size d = length d.vec

-- `std::copy_n(p, buflen, &_vec[index - buflen])`
pub write_before : ℕ → List ℕ → Exec DataContainer (Unit {0})
write_before index buf = do
  throw_if (ltb index (length buf)) "pgen::types::data_container::write_before: buflen is too large"
  member (λ d. d.vec) (λ v d. record d { vec = v }) (store buf (index - length buf))

unfoldable pub delete_content : DataContainer → DataContainer
delete_content d = record d { vec = resize d.pivot d.vec }

unfoldable pub set_content : List ℕ → DataContainer → DataContainer
unfolding delete_content
set_content buf d = let cleared = delete_content d in record cleared { vec = cleared.vec ++ buf }
