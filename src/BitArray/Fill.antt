-- ===== src/BitArray/Fill.antt =====
-- What the loops over bits leave in a vector of bytes.
use jaytwo_library.Prelude.{
  ℕ, ◌*◌, ◌<◌, suc, Bool, true, false, Bytes, length, if◌then◌else◌, ◌==◌, ◌≡◌, ◌≢◌, refl, sym, ap,
  ◌∙◌, arith, inl, inr, Bool-cases, for_range, for_range_inv,
}
use jaytwo_library.BitArray.{read_bit, write_bit, or_bit}
use jaytwo_library.BitArray.Bits.{
  AllBytes, write_bit-AllBytes, length-write_bit, read_bit-write_bit, read_bit-or_bit,
  or_bit-AllBytes, length-or_bit,
}

-- After `k` rounds that set bit `to i` to `f i`, from the vector `d0`.
pub record Filled (d0 d : Bytes) (to : ℕ → ℕ) (f : ℕ → Bool) (k : ℕ) : Type 0 where
  pub bytes : AllBytes d
  pub size : length d ≡ length d0
  pub written : (i : ℕ) → i < k → read_bit d (to i) ≡ f i
  pub kept : (j : ℕ) → ((i : ℕ) → i < k → to i ≢ j) → read_bit d j ≡ read_bit d0 j

module _ (d0 : Bytes) (to : ℕ → ℕ) (f : ℕ → Bool) (n : ℕ) (bytes : AllBytes d0)
    (inside : (i : ℕ) → i < n → to i < length d0 * 8)
    (apart : (i j : ℕ) → i < n → j < n → to i ≡ to j → i ≡ j) where
  Filled-start : Filled d0 d0 to f 0
  Filled-start = record {
    bytes = bytes;
    size = refl;
    written = λ i lt. absurd (omega arith);
    kept = λ j _. refl;
  }

  -- A round that sets the next bit and leaves the others.
  Filled-round :
      (d d' : Bytes) (k : ℕ)
      → k < n
      → Filled d0 d to f k
      → AllBytes d'
      → length d' ≡ length d
      → ((j : ℕ) → read_bit d' j ≡ (if to k == j then f k else read_bit d j))
      → Filled d0 d' to f (suc k)
  Filled-round d d' k lt h b' s' law = record {
    bytes = b';
    size = s' ∙ h.size;
    written = λ i below. elim (Bool-cases (i == k)) [
      | inl e ↦
          let at : i ≡ k = ground arith in
          rw at (law (to k) ∙ ap (λ t. if t then f k else read_bit d (to k)) (same (to k)))
      | inr e ↦
          let before : i < k = ground arith in
          let differ : i ≢ k = ground arith in
          law (to i)
          ∙ ap (λ t. if t then f k else read_bit d (to i))
              (other (to k) (to i) (λ q. differ (sym (apart k i lt (omega arith) q))))
          ∙ h.written i before
    ];
    kept = λ j free.
        law j
        ∙ ap (λ t. if t then f k else read_bit d j) (other (to k) j (free k (omega arith)))
        ∙ h.kept j (λ i below. free i (omega arith));
  }
    where
      same : (x : ℕ) → (x == x) ≡ true
      same x = ground arith

      other : (x y : ℕ) → x ≢ y → (x == y) ≡ false
      other x y ne = ground arith

  -- The loop that writes every bit.
  pub write_Filled : Filled d0 (for_range n 0 (λ i d. write_bit d (to i) (f i)) d0) to f n
  write_Filled =
      for_range_inv (λ k d. Filled d0 d to f k) (λ i d. write_bit d (to i) (f i)) n 0 n d0
        (omega arith)
        (λ k d _ lt h.
          Filled-round d (write_bit d (to k) (f k)) k lt h
            (write_bit-AllBytes d (to k) (f k) h.bytes) (length-write_bit d (to k) (f k))
            (λ j. read_bit-write_bit d (to k) j (f k) h.bytes (omega (arith, inside k lt, h.size))))
        Filled-start

  -- The loop that sets the bits which are one, where all were clear.
  pub or_Filled :
      ((i : ℕ) → i < n → read_bit d0 (to i) ≡ false)
      → Filled d0 (for_range n 0 (λ i d. or_bit d (to i) (f i)) d0) to f n
  or_Filled clear =
      for_range_inv (λ k d. Filled d0 d to f k) (λ i d. or_bit d (to i) (f i)) n 0 n d0
        (omega arith)
        (λ k d _ lt h.
          Filled-round d (or_bit d (to k) (f k)) k lt h (or_bit-AllBytes d (to k) (f k) h.bytes)
            (length-or_bit d (to k) (f k))
            (λ j. read_bit-or_bit d (to k) j (f k) h.bytes (omega (arith, inside k lt, h.size)) (
              h.kept (to k) (λ i below e. absurd (omega (arith, apart i k (omega arith) lt e)))
              ∙ clear k lt)))
        Filled-start
