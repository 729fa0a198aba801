-- ===== src/StringBasic/Wildcard/Fuel.antt =====
-- The bound on the rounds of the wildcard loop.
use jaytwo_library.Prelude.{
  ℕ, ◌+◌, ◌*◌, ◌≤◌, ◌<◌, zero, suc, Bool, [], ◌∷◌, ◌≡◌, inl, inr, refl, arith, none, some, Bytes,
  length, ◌==◌, ◌||◌, Bool-cases,
}
use jaytwo_library.StringBasic.Wildcard.{
  Anchor, Outcome, done, more, retry, wild_step, wild_loop, wild_fuel, wildcard_impl, asterisk,
  question,
}

-- How much text the anchor still has: all and one more before the first `*`.
abbrev left : ℕ → Anchor → ℕ
left n none = suc n
left n (some (sp, st)) = length st

module _ (n m : ℕ) where
  -- The text and the pattern are parts of the whole ones, of `n` and `m` chars.
  abbrev Within : Bytes → Bytes → Anchor → Type 0
  Within t p none = (length t ≤ n) × (length p ≤ m)
  Within t p (some (sp, st)) =
      (length t ≤ length st) × (length st ≤ n) × (length p ≤ m) × (length sp ≤ m)

  abbrev rounds : Bytes → Bytes → Anchor → ℕ
  rounds t p star = left n star * (n + m + 1) + length t + length p

  abbrev Smaller : ℕ → Outcome → Type 0
  Smaller k (done b) = Unit
  Smaller k (more t p star) = Within t p star × (rounds t p star < k)

  retry-Smaller :
      (t p : Bytes) (star : Anchor)
      → Within t p star
      → 0 < length t
      → Smaller (rounds t p star) (retry star)
  unfolding retry
  retry-Smaller t p none w h = tt
  retry-Smaller t p (some (sp, [])) w h = absurd (omega arith)
  retry-Smaller t p (some (sp, x ∷ st)) w h = omega arith

  match_smaller :
      (c : ℕ) (t : Bytes) (p : ℕ) (ps : Bytes) (star : Anchor)
      → Within (c ∷ t) (p ∷ ps) star
      → Within t ps star × (rounds t ps star < rounds (c ∷ t) (p ∷ ps) star)
  match_smaller c t p ps none w = omega arith
  match_smaller c t p ps (some (sp, st)) w = omega arith

  anchor_smaller :
      (c : ℕ) (t : Bytes) (p : ℕ) (ps : Bytes) (star : Anchor)
      → Within (c ∷ t) (p ∷ ps) star
      → Within (c ∷ t) ps (some (ps, c ∷ t))
        × (rounds (c ∷ t) ps (some (ps, c ∷ t)) < rounds (c ∷ t) (p ∷ ps) star)
  anchor_smaller c t p ps none w = grind arith
  anchor_smaller c t p ps (some (sp, st)) w = grind arith

  step-Smaller :
      (t p : Bytes) (star : Anchor)
      → Within t p star
      → Smaller (rounds t p star) (wild_step t p star)
  unfolding wild_step
  step-Smaller [] p star w = tt
  step-Smaller (c ∷ t) [] star w = retry-Smaller (c ∷ t) [] star w (omega arith)
  step-Smaller (c ∷ t) (p ∷ ps) star w = elim (Bool-cases (p == question || p == c)) [
    | inl e ↦ rw e (match_smaller c t p ps star w)
    | inr e ↦ elim (Bool-cases (p == asterisk)) [
      | inl f ↦ rw (e, f) (anchor_smaller c t p ps star w)
      | inr f ↦ rw (e, f) (retry-Smaller (c ∷ t) (p ∷ ps) star w (omega arith))
    ]
  ]

  abbrev Returns : ℕ → Type 0
  Returns fuel =
      (t p : Bytes) (star : Anchor)
      → Within t p star
      → rounds t p star < fuel
      → (b : Bool) × (wild_loop fuel t p star ≡ some b)

  loop_round :
      (fuel : ℕ) (t p : Bytes) (star : Anchor)
      → Returns fuel
      → rounds t p star < suc fuel
      → (o : Outcome) → wild_step t p star ≡ o
      → Smaller (rounds t p star) o
      → (b : Bool) × (wild_loop (suc fuel) t p star ≡ some b)
  unfolding wild_loop
  loop_round fuel t p star ih h (done b) e s = (b, rw (e, wild_loop))
  loop_round fuel t p star ih h (more t' p' star') e (w', less) =
      let (b, r) = ih t' p' star' w' (omega arith) in (b, rw (e, wild_loop) r)

  loop_total : (fuel : ℕ) → Returns fuel
  loop_total zero t p star w h = absurd (omega arith)
  loop_total (suc fuel) t p star w h =
      loop_round fuel t p star (loop_total fuel) h (wild_step t p star) refl
        (step-Smaller t p star w)

-- The loop ends within its fuel and returns a result, for every text and every pattern.
pub wildcard_impl_total : (text pat : Bytes) → (b : Bool) × (wildcard_impl text pat ≡ some b)
unfolding wildcard_impl wild_fuel
wildcard_impl_total text pat =
    loop_total (length text) (length pat) (wild_fuel text pat) text pat none (omega arith)
      (omega arith)
