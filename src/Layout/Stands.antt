-- ===== src/Layout/Stands.antt =====
-- Bytes that stand in memory from an offset on, and what a read there returns.
use libpgen.Base.{
  ℕ, ◌+◌, ◌≤◌, ◌≡◌, refl, sym, ap, ◌∙◌, List, ◌++◌, append_assoc, arith, length, take, drop,
  length-append, drop-drop, drop-append, take-append,
}
use libpgen.Base.Run.{ok}
use libpgen.Base.Splice.{splice, drop-splice, length-splice, splice-after}
use libpgen.Layout.Defs.{Layout}
use libpgen.Layout.Access.{cast, fetch, store, store_within, within_bounds}

pub record StandsAt (xs buf : List ℕ) (at : ℕ) : Type 0 where
  pub rest : List ℕ
  pub here : drop at buf ≡ xs ++ rest
  pub room : at + length xs ≤ length buf

-- Two pieces, one behind the other.
pub StandsAt-append :
    (xs ys buf : List ℕ) (at : ℕ)
    → StandsAt (xs ++ ys) buf at
    → StandsAt xs buf at × StandsAt ys buf (at + length xs)
StandsAt-append xs ys buf at s =
    let here : drop at buf ≡ xs ++ (ys ++ s.rest) = s.here ∙ append_assoc xs ys s.rest in
    let long = length-append xs ys in
    (
      record { rest = ys ++ s.rest; here = here; room = omega (arith, long, s.room) },
      record {
        rest = s.rest;
        here =
            sym (drop-drop at (length xs) buf)
            ∙ ap (drop (length xs)) here
            ∙ drop-append xs (ys ++ s.rest) (length xs) refl;
        room = omega (arith, long, s.room);
      },
    )

-- What `splice` put there.
pub StandsAt-splice :
    (xs ms : List ℕ) (at : ℕ) → at + length xs ≤ length ms → StandsAt xs (splice at xs ms) at
StandsAt-splice xs ms at h = record {
  rest = drop (at + length xs) ms;
  here = drop-splice at xs ms h;
  room = omega (arith, h, length-splice at xs ms);
}

pub fetch-StandsAt :
    {S : Type 0} (xs buf : List ℕ) (at n : ℕ) (s : S)
    → n ≡ length xs
    → StandsAt xs buf at
    → fetch buf at n s ≡ ok xs s
fetch-StandsAt xs buf at n s e st =
    within_bounds buf at n (take n (drop at buf)) s (omega (arith, e, st.room))
    ∙ ap (λ ys. ok ys s) (ap (take n) st.here ∙ take-append xs st.rest n (sym e))

pub cast-StandsAt :
    {S A : Type 0} (L : Layout A) (a : A) (buf : List ℕ) (at : ℕ) (s : S)
    → L.Fits a
    → StandsAt (L.put a) buf at
    → cast L buf at s ≡ ok a s
cast-StandsAt L a buf at s fits st =
    within_bounds buf at L.size (L.view (drop at buf)) s
      (omega (arith, L.length-put a fits, st.room))
    ∙ ap (λ x. ok x s) (ap L.view st.here ∙ L.view-put a st.rest fits)

-- A store right behind what was written.
pub store-splice :
    (xs ys ms : List ℕ) (at k : ℕ)
    → k ≡ at + length xs
    → k + length ys ≤ length ms
    → store ys k (splice at xs ms) ≡ ok tt (splice at (xs ++ ys) ms)
store-splice xs ys ms at k e h =
    store_within ys k (splice at xs ms) (omega (arith, h, length-splice at xs ms))
    ∙ ap (λ (j : ℕ). ok tt (splice j ys (splice at xs ms))) e
    ∙ ap (ok tt) (splice-after at xs ys ms)

-- What lies behind it is as before.
pub drop-splice_behind :
    (xs ms : List ℕ) (at : ℕ)
    → at + length xs ≤ length ms
    → drop (at + length xs) (splice at xs ms) ≡ drop (at + length xs) ms
drop-splice_behind xs ms at h =
    sym (drop-drop at (length xs) (splice at xs ms))
    ∙ ap (drop (length xs)) (drop-splice at xs ms h)
    ∙ drop-append xs (drop (at + length xs) ms) (length xs) refl
