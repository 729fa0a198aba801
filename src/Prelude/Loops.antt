-- ===== src/Prelude/Loops.antt =====
-- The counted loop, and lists given by a function of the index.
use Prim.Native.Nat.add
use Prim.Native.Nat.{ℕ, zero, suc, ◌+◌, ◌-◌, ◌≤◌, ◌<◌, min}
use mathlib.Core.Path.{◌≡◌, refl, ap, sym, ◌∙◌}
use mathlib.Core.Logic.{inl, inr}
use mathlib.Core.List.{List, [], ◌∷◌, ◌++◌, reverse, reverse-cons}
use native.Mathlib.Omega.{arith}
use jaytwo_library.Prelude.Lists.{take, take-nil, drop, replicate, length}
use jaytwo_library.Prelude.Tests.{leb, leb→le, Bool-cases}

-- `for (k = i; k < i + n; ++k) s = body k s`: recursion on the rounds left.
unfoldable pub for_range {ℓ} : {S : Type ℓ} → ℕ → ℕ → (ℕ → S → S) → S → S
for_range zero i body s = s
for_range (suc n) i body s = for_range n (suc i) body (body i s)

-- What each round keeps, the loop keeps, with the count of the rounds made.
pub for_range_inv {ℓ κ} :
    {S : Type ℓ} (P : ℕ → S → Type κ) (body : ℕ → S → S) (n i j : ℕ) (s : S)
    → i + n ≡ j
    → ((k : ℕ) (t : S) → i ≤ k → k < j → P k t → P (suc k) (body k t))
    → P i s
    → P j (for_range n i body s)
unfolding for_range
for_range_inv P body zero i j s e keep h = let same : j ≡ i = omega arith in rw same h
for_range_inv P body (suc n) i j s e keep h =
    for_range_inv P body n (suc i) j (body i s) (omega arith)
      (λ k t above below. keep k t (omega arith) below) (keep i s (omega arith) (omega arith) h)

module _ {ℓ} {A : Type ℓ} where
  -- The list of `f 0` to `f (n - 1)`.
  abbrev pub tabulate : ℕ → (ℕ → A) → List A
  tabulate zero f = []
  tabulate (suc n) f = f 0 ∷ tabulate n (λ i. f (suc i))

  pub length-tabulate : (n : ℕ) (f : ℕ → A) → length (tabulate n f) ≡ n
  length-tabulate zero f = refl
  length-tabulate (suc n) f = ap suc (length-tabulate n (λ i. f (suc i)))

  pub tabulate_ext :
      (n : ℕ) (f g : ℕ → A) → ((i : ℕ) → i < n → f i ≡ g i) → tabulate n f ≡ tabulate n g
  tabulate_ext zero f g h = refl
  tabulate_ext (suc n) f g h = λ i.
      h 0 (omega arith) i
      ∷ tabulate_ext n (λ k. f (suc k)) (λ k. g (suc k)) (λ k lt. h (suc k) (omega arith)) i

  pub take-tabulate : (k n : ℕ) (f : ℕ → A) → k ≤ n → take k (tabulate n f) ≡ tabulate k f
  take-tabulate zero n f h = refl
  take-tabulate (suc k) zero f h = absurd (omega arith)
  take-tabulate (suc k) (suc n) f h =
      ap (◌∷◌ (f 0)) (take-tabulate k n (λ i. f (suc i)) (omega arith))

  pub take-tabulate-min : (k n : ℕ) (f : ℕ → A) → take k (tabulate n f) ≡ tabulate (min k n) f
  take-tabulate-min zero n f = let none : min 0 n ≡ 0 = omega arith in rw none
  take-tabulate-min (suc k) zero f = let none : min (suc k) 0 ≡ 0 = omega arith in rw none
  take-tabulate-min (suc k) (suc n) f =
      let less : min (suc k) (suc n) ≡ suc (min k n) = omega arith in
      rw less (ap (◌∷◌ (f 0)) (take-tabulate-min k n (λ i. f (suc i))))

  pub drop-tabulate_past : (k n : ℕ) (f : ℕ → A) → n ≤ k → drop k (tabulate n f) ≡ []
  drop-tabulate_past zero zero f h = refl
  drop-tabulate_past zero (suc n) f h = absurd (omega arith)
  drop-tabulate_past (suc k) zero f h = refl
  drop-tabulate_past (suc k) (suc n) f h = drop-tabulate_past k n (λ i. f (suc i)) (omega arith)

  pub drop-tabulate :
      (k m n : ℕ) (f : ℕ → A) → n ≡ k + m → drop k (tabulate n f) ≡ tabulate m (λ i. f (k + i))
  drop-tabulate zero m n f e =
      let same : n ≡ m = omega arith in
      rw same (tabulate_ext m f _ (λ i _. ap f (sym (add.zero i))))
  drop-tabulate (suc k) m zero f e = absurd (omega arith)
  drop-tabulate (suc k) m (suc n) f e =
      drop-tabulate k m n (λ i. f (suc i)) (omega arith)
      ∙ tabulate_ext m _ _ (λ i _. ap f (sym (add.suc k i)))

  -- The part of a tabulated list that a range cuts out.
  pub take-drop-tabulate :
      (n off len : ℕ) (f : ℕ → A)
      → take len (drop off (tabulate n f)) ≡ tabulate (min len (n - off)) (λ i. f (off + i))
  take-drop-tabulate n off len f = elim (Bool-cases (leb off n)) [
    | inl e ↦
        let le = leb→le off n e in
        ap (take len) (drop-tabulate off (n - off) n f (omega arith))
        ∙ take-tabulate-min len (n - off) (λ i. f (off + i))
    | inr e ↦
        let past : n ≤ off = ground arith in
        let none : min len (n - off) ≡ 0 = omega arith in
        rw none (ap (take len) (drop-tabulate_past off n f past) ∙ take-nil len)
  ]

  -- A function that goes through `f` and then through `g` gives the two lists in a row.
  pub tabulate-append :
      (n m l : ℕ) (f g h : ℕ → A)
      → l ≡ n + m
      → ((i : ℕ) → i < n → h i ≡ f i)
      → ((i : ℕ) → i < m → h (n + i) ≡ g i)
      → tabulate l h ≡ tabulate n f ++ tabulate m g
  tabulate-append zero m l f g h e hf hg =
      let same : l ≡ m = omega arith in
      rw same (tabulate_ext m h g (λ i lt. ap h (sym (add.zero i)) ∙ hg i lt))
  tabulate-append (suc n) m zero f g h e hf hg = absurd (omega arith)
  tabulate-append (suc n) m (suc l) f g h e hf hg = λ j.
      hf 0 (omega arith) j
      ∷ tabulate-append n m l (λ i. f (suc i)) g (λ i. h (suc i)) (omega arith)
          (λ i lt. hf (suc i) (omega arith)) (λ i lt. ap h (sym (add.suc n i)) ∙ hg i lt) j

  pub tabulate-const : (n : ℕ) (a : A) → replicate n a ≡ tabulate n (λ _. a)
  tabulate-const zero a = refl
  tabulate-const (suc n) a = ap (◌∷◌ a) (tabulate-const n a)

  pub tabulate-snoc : (n : ℕ) (f : ℕ → A) → tabulate (suc n) f ≡ tabulate n f ++ f n ∷ []
  tabulate-snoc zero f = refl
  tabulate-snoc (suc n) f = ap (◌∷◌ (f 0)) (tabulate-snoc n (λ i. f (suc i)))

  pub reverse-tabulate :
      (n : ℕ) (f g : ℕ → A)
      → ((i : ℕ) → i < n → g i ≡ f (n - suc i))
      → tabulate n g ≡ reverse (tabulate n f)
  reverse-tabulate zero f g h = refl
  reverse-tabulate (suc n) f g h =
      tabulate-snoc n g
      ∙ ap (λ t. t ++ g n ∷ [])
          (reverse-tabulate n (λ i. f (suc i)) g (λ i lt. h i (omega arith) ∙ ap f (omega arith)))
      ∙ ap (λ x. reverse (tabulate n (λ i. f (suc i))) ++ x ∷ [])
          (h n (omega arith) ∙ ap f (omega arith))
      ∙ sym (reverse-cons (f 0) (tabulate n (λ i. f (suc i))))
