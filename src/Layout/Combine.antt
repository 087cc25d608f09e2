-- ===== src/Layout/Combine.antt =====
-- Arrays, fields one after the other, and structs with named fields.
use libpgen.Base.{
  ℕ, zero, suc, ◌+◌, ◌*◌, ◌≤◌, ◌≡◌, refl, sym, ap, ap₂, ◌∙◌, List, [], ◌∷◌, ◌++◌, append_assoc,
  arith, length, take, drop, All-append, All-take, All-drop, length-append, length-take_le,
  length-drop, take-append, drop-append, take-add,
}
use libpgen.Base.Bytes.{IsByte, IsBytes, WordsFit}
use libpgen.Layout.Defs.{Layout}
use libpgen.Layout.Words.{
  u16_put, u16_view, u16_put-IsBytes, u16_view-put, u16_put-view, u16_view-lt,
}

-- `uint8_t[n]`
abbrev pub array : ℕ → Layout (List ℕ)
array n = record {
  size = n;
  Fits = λ bs. (length bs ≡ n) × IsBytes bs;
  put = λ bs. bs;
  view = take n;
  length-put = λ bs h. h.0;
  put-IsBytes = λ bs h. h.1;
  view-put = λ bs rest h. take-append bs rest n h.0;
  put-view = λ bs p h. refl;
  view-Fits = λ bs p h. (length-take_le n bs h, All-take IsByte n bs p);
}

module _ {A B : Type 0} (L : Layout A) (R : Layout B) where
  pub pair-length :
      (a : A) (b : B) → L.Fits a → R.Fits b → length (L.put a ++ R.put b) ≡ L.size + R.size
  pair-length a b h k =
      length-append (L.put a) (R.put b) ∙ ap₂ ◌+◌ (L.length-put a h) (R.length-put b k)

  pub pair-view-put :
      (a : A) (b : B) (rest : List ℕ)
      → L.Fits a
      → R.Fits b
      → let bs = (L.put a ++ R.put b) ++ rest in
        ◌≡◌ {A = A × B} (L.view bs, R.view (drop L.size bs)) (a, b)
  pair-view-put a b rest h k = rw (
    append_assoc,
    L.view-put a (R.put b ++ rest) h,
    drop-append (L.put a) (R.put b ++ rest) L.size (L.length-put a h),
    R.view-put b rest k,
  )

  pub pair-put-view :
      (bs : List ℕ)
      → IsBytes bs
      → L.size + R.size ≤ length bs
      → L.put (L.view bs) ++ R.put (R.view (drop L.size bs)) ≡ take (L.size + R.size) bs
  pair-put-view bs p h =
      ap₂ ◌++◌ (L.put-view bs p (omega arith)) (
        R.put-view (drop L.size bs) (All-drop IsByte L.size bs p)
          (omega (arith, length-drop L.size bs)))
      ∙ sym (take-add L.size R.size bs)

  pub pair-view-Fits :
      (bs : List ℕ)
      → IsBytes bs
      → L.size + R.size ≤ length bs
      → L.Fits (L.view bs) × R.Fits (R.view (drop L.size bs))
  pair-view-Fits bs p h = (
    L.view-Fits bs p (omega arith),
    R.view-Fits (drop L.size bs) (All-drop IsByte L.size bs p)
        (omega (arith, length-drop L.size bs)),
  )

  infixr 66 ◌⊗◌
  -- Two fields, the second behind the first with no padding.
  abbrev pub ◌⊗◌ : Layout (A × B)
  ◌⊗◌ = record {
    size = L.size + R.size;
    Fits = λ ab. L.Fits ab.0 × R.Fits ab.1;
    put = λ ab. L.put ab.0 ++ R.put ab.1;
    view = λ bs. (L.view bs, R.view (drop L.size bs));
    length-put = λ ab h. pair-length ab.0 ab.1 h.0 h.1;
    put-IsBytes = λ ab h.
        All-append IsByte (L.put ab.0) (R.put ab.1) (L.put-IsBytes ab.0 h.0)
          (R.put-IsBytes ab.1 h.1);
    view-put = λ ab rest h. pair-view-put ab.0 ab.1 rest h.0 h.1;
    put-view = pair-put-view;
    view-Fits = pair-view-Fits;
  }

-- `uint16_t[n]`, as a list of words.
abbrev pub words_put : List ℕ → List ℕ
words_put [] = []
words_put (w ∷ ws) = u16_put w ++ words_put ws

abbrev pub words_view : ℕ → List ℕ → List ℕ
words_view zero bs = []
words_view (suc n) bs = u16_view bs ∷ words_view n (drop 2 bs)

pub words_put-length : (n : ℕ) (ws : List ℕ) → length ws ≡ n → length (words_put ws) ≡ 2 * n
words_put-length zero [] h = refl
words_put-length zero (w ∷ ws) h = absurd (omega arith)
words_put-length (suc n) [] h = absurd (omega arith)
words_put-length (suc n) (w ∷ ws) h = omega (arith, words_put-length n ws (omega arith))

pub words_put-IsBytes : (ws : List ℕ) → IsBytes (words_put ws)
words_put-IsBytes [] = tt
words_put-IsBytes (w ∷ ws) =
    All-append IsByte (u16_put w) (words_put ws) (u16_put-IsBytes w) (words_put-IsBytes ws)

pub words_view-put :
    (n : ℕ) (ws rest : List ℕ) → WordsFit n ws → words_view n (words_put ws ++ rest) ≡ ws
words_view-put zero [] rest h = refl
words_view-put zero (w ∷ ws) rest (h, p) = absurd (omega arith)
words_view-put (suc n) [] rest (h, p) = absurd (omega arith)
words_view-put (suc n) (w ∷ ws) rest (h, (p, ps)) =
    ap₂ ◌∷◌ (u16_view-put w [] p) (words_view-put n ws rest (omega arith, ps))

pub words_put-view :
    (n : ℕ) (bs : List ℕ)
    → IsBytes bs
    → 2 * n ≤ length bs
    → words_put (words_view n bs) ≡ take (2 * n) bs
words_put-view zero bs p h = refl
words_put-view (suc n) [] p h = absurd (omega arith)
words_put-view (suc n) (a ∷ []) p h = absurd (omega arith)
words_put-view (suc n) (a ∷ b ∷ bs) (p, (q, ps)) h =
    ap₂ ◌++◌ (u16_put-view (a ∷ b ∷ []) (p, (q, tt)) (omega arith))
      (words_put-view n bs ps (omega arith))
    ∙ ap (λ k. take k (a ∷ b ∷ bs)) (two_more n)
  where
    two_more : (n : ℕ) → suc (suc (2 * n)) ≡ 2 * suc n
    two_more n = omega arith

pub words_view-WordsFit :
    (n : ℕ) (bs : List ℕ) → IsBytes bs → 2 * n ≤ length bs → WordsFit n (words_view n bs)
words_view-WordsFit zero bs p h = (refl, tt)
words_view-WordsFit (suc n) bs p h =
    let (e, q) =
      words_view-WordsFit n (drop 2 bs) (All-drop IsByte 2 bs p)
        (omega (arith, length-drop 2 bs)) in
    (ap suc e, (u16_view-lt bs p (omega arith), q))

abbrev pub words : ℕ → Layout (List ℕ)
words n = record {
  size = 2 * n;
  Fits = WordsFit n;
  put = words_put;
  view = words_view n;
  length-put = λ ws h. words_put-length n ws h.0;
  put-IsBytes = λ ws h. words_put-IsBytes ws;
  view-put = words_view-put n;
  put-view = words_put-view n;
  view-Fits = words_view-WordsFit n;
}

-- A struct whose fields have names, from the tuple of its fields.
abbrev pub via :
    {A B : Type 0}
    → Layout A
    → (f : B → A) (g : A → B) → ((b : B) → g (f b) ≡ b)
    → ((a : A) → f (g a) ≡ a)
    → Layout B
via L f g gf fg = record {
  size = L.size;
  Fits = λ b. L.Fits (f b);
  put = λ b. L.put (f b);
  view = λ bs. g (L.view bs);
  length-put = λ b h. L.length-put (f b) h;
  put-IsBytes = λ b h. L.put-IsBytes (f b) h;
  view-put = λ b rest h. ap g (L.view-put (f b) rest h) ∙ gf b;
  put-view = λ bs p h. ap L.put (fg (L.view bs)) ∙ L.put-view bs p h;
  view-Fits = λ bs p h. rw (fg (L.view bs)) (L.view-Fits bs p h);
}
