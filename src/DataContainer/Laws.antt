-- ===== src/DataContainer/Laws.antt =====
-- The invariant of a container, and what replacing its content does.
use libpgen.Base.{
  ℕ, ◌+◌, ◌-◌, ◌≤◌, ◌<◌, ◌≡◌, ap, ◌∙◌, List, ◌++◌, arith, length, take, drop, replicate, ltb,
  lt→ltb, ge→ltb, length-append, length-replicate, length-take_le, drop-append,
  append_nil_of_length, All-append, All-take, All-replicate,
}
use libpgen.Base.Bytes.{IsByte, IsBytes}
use libpgen.Base.Run.{ok, throw, member, >>=-ok, throw_if}
use libpgen.Base.Splice.{splice}
use libpgen.DataContainer.{DataContainer, resize, construct, write_before, set_content}
use libpgen.Layout.{store_within}

-- The space in front is there.
pub record IsValid (d : DataContainer) : Type 0 where
  pub front : d.pivot ≤ length d.vec
  pub bytes : IsBytes d.vec

pub construct-IsValid : (pivot : ℕ) → IsValid (construct pivot)
unfolding construct
construct-IsValid pivot = record {
  front = omega (arith, length-replicate {0} {A = ℕ} pivot 0);
  bytes = All-replicate IsByte pivot 0 (omega arith);
}

resize_front : (n : ℕ) (xs : List ℕ) → n ≤ length xs → resize n xs ≡ take n xs
resize_front n xs h =
    append_nil_of_length (take n xs) (replicate (n - length xs) 0)
      (length-replicate (n - length xs) 0 ∙ omega arith)

-- `set_content` of any bytes keeps the space in front, and puts the bytes behind it in place of what
-- stood there.
pub set_content_lem :
    (d : DataContainer) (buf : List ℕ)
    → IsValid d
    → IsBytes buf
    → IsValid (set_content buf d)
      × ((set_content buf d).vec ≡ take d.pivot d.vec ++ buf)
      × (drop d.pivot (set_content buf d).vec ≡ buf)
      × (length (set_content buf d).vec ≡ d.pivot + length buf)
unfolding set_content
set_content_lem d buf v bs =
    let kept = resize_front d.pivot d.vec v.front in
    let same : resize d.pivot d.vec ++ buf ≡ take d.pivot d.vec ++ buf =
      ap (λ xs. xs ++ buf) kept in
    let long : length (take d.pivot d.vec) ≡ d.pivot = length-take_le d.pivot d.vec v.front in
    let total : length (resize d.pivot d.vec ++ buf) ≡ d.pivot + length buf =
      ap length same ∙ length-append (take d.pivot d.vec) buf ∙ omega (arith, long) in
    (
      record {
        front = omega (arith, total);
        bytes =
            All-append IsByte (resize d.pivot d.vec) buf
              (All-append IsByte (take d.pivot d.vec) (replicate (d.pivot - length d.vec) 0)
                (All-take IsByte d.pivot d.vec v.bytes)
                (All-replicate IsByte (d.pivot - length d.vec) 0 (omega arith)))
              bs;
      },
      same,
      ap (drop d.pivot) same ∙ drop-append (take d.pivot d.vec) buf d.pivot long,
      total,
    )

-- `write_before` throws if there is no room before the index; else, inside the container, it
-- overwrites the bytes that end there.
pub write_before_cases :
    (index : ℕ) (buf : List ℕ) (d : DataContainer)
    → (index < length buf
        → write_before index buf d
          ≡ throw "pgen::types::data_container::write_before: buflen is too large" d)
      × (length buf ≤ index
          → index ≤ length d.vec
          → write_before index buf d
            ≡ ok tt (record d { vec = splice (index - length buf) buf d.vec }))
unfolding write_before
write_before_cases index buf d = (
  λ h. rw (lt→ltb index (length buf) h),
  λ h k.
      >>=-ok (throw_if (ltb index (length buf)) _) _ d {s' = d} (rw (ge→ltb index (length buf) h))
      ∙ rw (store_within buf (index - length buf) d.vec (omega arith), member),
)
