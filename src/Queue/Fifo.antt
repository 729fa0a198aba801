-- ===== src/Queue/Fifo.antt =====
-- The order of the values: under `reject_new`, and under `drop_oldest`.
use jaytwo_library.Prelude.{
  ℕ, ◌-◌, ◌≤◌, zero, suc, Bool, List, [], ◌∷◌, ◌++◌, length, drop, ◌≡◌, ◌≢◌, ◌⊎◌, inl, inr, refl,
  sym, ap, ap₂, ◌∙◌, arith, leb, ◌==◌, length-append, append_assoc, append-nil, Bool-cases,
  drop-drop, length-drop,
}
use jaytwo_library.Queue.{
  ConcurrentQueue, drop_oldest, reject_new, pop_front, emplace_impl, enqueue, take_front,
  try_dequeue, dequeue_if, take_front_if, clear,
}
use jaytwo_library.Queue.Laws.{Call, put, take, take_if, wipe, listed, call, run}

module _ {ℓ} {A : Type ℓ} where
  abbrev pub Lossless : ConcurrentQueue A → Type 0
  Lossless q = (q.max_size ≡ 0) ⊎ (q.policy ≡ reject_new)

  -- What a call owes: the values are where they were, in their order, and the settings stay.
  abbrev Keeps : ConcurrentQueue A → ConcurrentQueue A × List A × List A → Type ℓ
  Keeps q r = (r.2 ++ r.0.queue ≡ q.queue ++ r.1) × (Lossless q → Lossless r.0)

  put-Keeps : (q : ConcurrentQueue A) (v : A) → Lossless q → Keeps q (call q (put v))
  unfolding call enqueue emplace_impl
  put-Keeps q v l = ground (arith, append-nil q.queue, l)

  take-Keeps : (q : ConcurrentQueue A) → Keeps q (call q take)
  unfolding call try_dequeue
  take-Keeps q = go q.queue refl
    where
      go :
          (xs : List A)
          → q.queue ≡ xs
          → (listed (take_front xs q).1 ++ (take_front xs q).0.queue ≡ q.queue ++ [])
            × (Lossless q → Lossless (take_front xs q).0)
      go [] e = (sym (append-nil q.queue), λ l. l)
      go (x ∷ xs) e = (sym (append-nil q.queue ∙ e), λ l. l)

  take_if-Keeps : (q : ConcurrentQueue A) (pred : A → ℕ → Bool) → Keeps q (call q (take_if pred))
  unfolding call dequeue_if
  take_if-Keeps q pred = go q.queue refl
    where
      go :
          (xs : List A)
          → q.queue ≡ xs
          → (listed (take_front_if pred xs q).1 ++ (take_front_if pred xs q).0.queue
              ≡ q.queue ++ [])
            × (Lossless q → Lossless (take_front_if pred xs q).0)
      go [] e = (sym (append-nil q.queue), λ l. l)
      go (x ∷ xs) e = elim (Bool-cases (pred x (suc (length xs)))) [
        | inl t ↦ rw (t, take_front_if) (sym (append-nil q.queue ∙ e), λ l. l)
        | inr t ↦ rw (t, take_front_if) (sym (append-nil q.queue), λ l. l)
      ]

  call-Keeps : (q : ConcurrentQueue A) (c : Call A) → Lossless q → Keeps q (call q c)
  call-Keeps q (put v) l = put-Keeps q v l
  call-Keeps q take l = take-Keeps q
  call-Keeps q (take_if pred) l = take_if-Keeps q pred
  call-Keeps q wipe l = unfold call clear in (refl, λ x. x)

  -- With no limit, or with `reject_new`, the values that came out, followed by those in the queue,
  -- are those that were in it followed by those that went in, in that order: none is lost, made up
  -- or overtaken, whatever the threads call and in whatever order.
  pub run_fifo :
      (q : ConcurrentQueue A) (cs : List (Call A))
      → Lossless q
      → (run q cs).2 ++ (run q cs).0.queue ≡ q.queue ++ (run q cs).1
  unfolding run
  run_fifo q [] l = sym (append-nil q.queue)
  run_fifo q (c ∷ cs) l =
      let (q', ins, outs) = call q c in
      let (here, stays) = call-Keeps q c l in
      append_assoc outs (run q' cs).2 (run q' cs).0.queue
      ∙ ap (◌++◌ outs) (run_fifo q' cs (stays l))
      ∙ sym (append_assoc outs q'.queue (run q' cs).1)
      ∙ ap (λ t. t ++ (run q' cs).1) here
      ∙ append_assoc q.queue ins (run q' cs).1

  -- The values are enqueued one after the other.
  unfoldable pub put_all : ConcurrentQueue A → List A → ConcurrentQueue A
  put_all q [] = q
  put_all q (v ∷ vs) = put_all (enqueue q v).0 vs

  -- The newest values, as many as the limit.
  abbrev pub newest : ℕ → List A → List A
  newest n xs = drop (length xs - n) xs

  drop-append_within :
      (k : ℕ) (xs ys : List A) → k ≤ length xs → drop k (xs ++ ys) ≡ drop k xs ++ ys
  drop-append_within zero xs ys le = refl
  drop-append_within (suc k) [] ys le = absurd (omega (arith, le))
  drop-append_within (suc k) (x ∷ xs) ys le = drop-append_within k xs ys (omega (arith, le))

  newest_all : (n : ℕ) (xs : List A) → length xs ≤ n → newest n xs ≡ xs
  newest_all n xs le = let none_over : length xs - n ≡ 0 = omega (arith, le) in rw none_over refl

  newest-append : (n : ℕ) (xs ys : List A) → newest n (newest n xs ++ ys) ≡ newest n (xs ++ ys)
  newest-append n xs ys =
      let k = length xs - n in
      let a = length (drop k xs ++ ys) - n in
      ap (drop a) (sym (drop-append_within k xs ys (omega arith)))
      ∙ drop-drop a k (xs ++ ys)
      ∙ ap (λ t. drop t (xs ++ ys))
          (omega (arith, length-append (drop k xs) ys, length-drop k xs, length-append xs ys))

  pop_newest :
      (xs : List A) (v : A) (n : ℕ)
      → n ≢ 0
      → length xs ≡ n
      → pop_front xs ++ v ∷ [] ≡ newest n (xs ++ v ∷ [])
  pop_newest [] v n h e = absurd (h (sym e))
  pop_newest (x ∷ xs) v n h e =
      let one_over : suc (length (xs ++ v ∷ [])) - n ≡ 1 =
        omega (arith, length-append xs (v ∷ []), e) in
      rw one_over refl

  put_newest :
      (q : ConcurrentQueue A) (v : A)
      → q.policy ≡ drop_oldest
      → q.max_size ≢ 0
      → length q.queue ≤ q.max_size
      → (enqueue q v).0.queue ≡ newest q.max_size (q.queue ++ v ∷ [])
  unfolding enqueue emplace_impl
  put_newest q v p h le = elim (Bool-cases (q.max_size == 0)) [
    | inl z ↦ absurd (h (ground (arith, z)))
    | inr z ↦ elim (Bool-cases (leb q.max_size (length q.queue))) [
      | inl f ↦ rw (z, f, p) (pop_newest q.queue v q.max_size h (ground (arith, f, le)))
      | inr f ↦
          rw (z, f)
            (sym (
              newest_all q.max_size (q.queue ++ v ∷ [])
                (ground (arith, f, length-append q.queue (v ∷ [])))))
    ]
  ]

  put_settings :
      (q : ConcurrentQueue A) (v : A)
      → ((enqueue q v).0.policy ≡ q.policy) × ((enqueue q v).0.max_size ≡ q.max_size)
  unfolding enqueue emplace_impl
  put_settings q v = (ground arith, ground arith)

  -- With a limit and `drop_oldest`, from a queue within its limit: after any values are enqueued,
  -- the queue holds the newest of all, those that were in it included, as many as the limit.
  pub put_all-newest :
      (q : ConcurrentQueue A) (vs : List A)
      → q.policy ≡ drop_oldest
      → q.max_size ≢ 0
      → length q.queue ≤ q.max_size
      → (put_all q vs).queue ≡ newest q.max_size (q.queue ++ vs)
  unfolding put_all
  put_all-newest q [] p h le =
      sym (ap (newest q.max_size) (append-nil q.queue) ∙ newest_all q.max_size q.queue le)
  put_all-newest q (v ∷ vs) p h le =
      let q' = (enqueue q v).0 in
      let (policy, limit) = put_settings q v in
      let here = put_newest q v p h le in
      let fits : length q'.queue ≤ q'.max_size = omega (
        arith,
        limit,
        ap length here,
        length-drop (length (q.queue ++ v ∷ []) - q.max_size) (q.queue ++ v ∷ []),
      ) in
      put_all-newest q' vs (policy ∙ p) (λ z. h (sym limit ∙ z)) fits
      ∙ ap₂ (λ m t. newest m (t ++ vs)) limit here
      ∙ newest-append q.max_size (q.queue ++ v ∷ []) vs
      ∙ ap (newest q.max_size) (append_assoc q.queue (v ∷ []) vs)
