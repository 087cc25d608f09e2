-- ===== src/Layout/Defs.antt =====
-- The interface of a field or struct in memory.
use libpgen.Base.{ℕ, ◌≤◌, ◌≡◌, List, ◌++◌, length, take}
use libpgen.Base.Bytes.{IsBytes}

pub record Layout (A : Type 0) : Type 1 where
  pub size : ℕ
  -- The values that the field can hold.
  pub Fits : A → Type 0
  pub put : A → List ℕ
  pub view : List ℕ → A
  pub length-put : (a : A) → Fits a → length (put a) ≡ size
  pub put-IsBytes : (a : A) → Fits a → IsBytes (put a)
  pub view-put : (a : A) (rest : List ℕ) → Fits a → view (put a ++ rest) ≡ a
  pub put-view : (bs : List ℕ) → IsBytes bs → size ≤ length bs → put (view bs) ≡ take size bs
  pub view-Fits : (bs : List ℕ) → IsBytes bs → size ≤ length bs → Fits (view bs)
