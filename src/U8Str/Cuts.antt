-- ===== src/U8Str/Cuts.antt =====
-- The cuts of well-formed UTF-8 by code points: `left`, `right` and `mid`.
use jaytwo_library.Prelude.{
  ℕ, ◌+◌, ◌-◌, ◌%◌, ◌^◌, ◌<◌, ◌≤◌, zero, suc, true, false, ◌||◌, List, [], ◌∷◌, ◌++◌, length, take,
  drop, reverse, ltb, leb, ◌==◌, ◌≡◌, refl, sym, ap, ◌∙◌, arith, inl, inr, Bool-cases, All,
  length-append, length-drop, append-nil, drop-append_left, take-append_left, take-append-drop,
  take-nil, drop-nil, drop-length,
}
use jaytwo_library.Text.{substr}
use jaytwo_library.Encoding.RoundTrip.{IsScalar}
use jaytwo_library.U8String.{append_utf8, from_u32string}
use jaytwo_library.U8Str.{first_at, end_at, left, right, byte_count, mid}
use jaytwo_library.U8Str.Spans.{
  spans_of, utf8_index_map-from, length-spans_of, from-append, first_at-spans_of, end_at-spans_of,
}

empty_list : (vs : List ℕ) → length vs ≡ 0 → vs ≡ []
empty_list [] e = refl
empty_list (v ∷ vs) e = absurd (omega (arith, e))

pub one_bytes : (v : ℕ) → append_utf8 v ≡ from_u32string (v ∷ [])
one_bytes v = unfold from_u32string in sym (append-nil (append_utf8 v))

pub reverse_short : (vs : List ℕ) → length vs ≤ 1 → reverse vs ≡ vs
reverse_short [] h = refl
reverse_short (v ∷ []) h = refl
reverse_short (v ∷ w ∷ vs) h = absurd (omega (arith, h))

outside :
    (vs : List ℕ) (pos count : ℕ)
    → (count == 0 || leb (length vs) pos) ≡ true
    → from_u32string (take count (drop pos vs)) ≡ []
outside vs pos zero e = unfold from_u32string in refl
outside vs pos (suc count) e =
    let past : length (drop pos vs) ≡ 0 = ground (arith, e, length-drop pos vs) in
    ap (λ t. from_u32string (take (suc count) t)) (empty_list (drop pos vs) past)
    ∙ unfold from_u32string in refl

-- The text cut between two code points.
cut :
    (vs : List ℕ) (n : ℕ)
    → from_u32string vs ≡ from_u32string (take n vs) ++ from_u32string (drop n vs)
cut vs n = ap from_u32string (sym (take-append-drop n vs)) ∙ from-append (take n vs) (drop n vs)

take_bytes :
    (vs : List ℕ) (n : ℕ)
    → take (length (from_u32string (take n vs))) (from_u32string vs) ≡ from_u32string (take n vs)
take_bytes vs n =
    ap (take (length (from_u32string (take n vs)))) (cut vs n)
    ∙ take-append_left (from_u32string (take n vs)) (from_u32string (drop n vs))

drop_bytes :
    (vs : List ℕ) (n : ℕ)
    → drop (length (from_u32string (take n vs))) (from_u32string vs) ≡ from_u32string (drop n vs)
drop_bytes vs n =
    ap (drop (length (from_u32string (take n vs)))) (cut vs n)
    ∙ drop-append_left (from_u32string (take n vs)) (from_u32string (drop n vs))

take_all : (vs : List ℕ) (n : ℕ) → length vs ≤ n → take n vs ≡ vs
take_all [] zero h = refl
take_all [] (suc n) h = refl
take_all (v ∷ vs) zero h = absurd (omega (arith, h))
take_all (v ∷ vs) (suc n) h = ap (◌∷◌ v) (take_all vs n (omega (arith, h)))

pub nil_bytes : from_u32string [] ≡ []
nil_bytes = unfold from_u32string in refl

first_at_zero :
    (vs : List ℕ) (i : ℕ)
    → i < length vs
    → first_at (spans_of 0 vs) i ≡ length (from_u32string (take i vs))
first_at_zero vs i h = first_at-spans_of 0 vs i h ∙ omega arith

end_at_zero :
    (vs : List ℕ) (i : ℕ)
    → i < length vs
    → end_at (spans_of 0 vs) i ≡ length (from_u32string (take (suc i) vs))
end_at_zero vs i h = end_at-spans_of 0 vs i h ∙ omega arith

pub left-from :
    (vs : List ℕ) (n : ℕ)
    → All IsScalar vs
    → left (from_u32string vs) n ≡ from_u32string (take n vs)
unfolding left
left-from [] n h = rw (utf8_index_map-from [] h) (sym (ap from_u32string (take-nil n) ∙ nil_bytes))
left-from (v ∷ vs) zero h = rw (utf8_index_map-from (v ∷ vs) h) (sym nil_bytes)
left-from (v ∷ vs) (suc n) h =
    let all = v ∷ vs in
    let some_left : (suc n == 0) ≡ false = ground arith in
    let count = length-spans_of 0 all in
    let last : suc n - 1 ≡ n = omega arith in
    elim (Bool-cases (leb (length all) (suc n))) [
      | inl e ↦
          rw (utf8_index_map-from all h, some_left, count, e)
            (ap from_u32string (sym (take_all all (suc n) (ground (arith, e)))))
      | inr e ↦
          rw
            (
              utf8_index_map-from all h,
              some_left,
              count,
              e,
              last,
              end_at_zero all n (ground (arith, e)),
            )
            (take_bytes all (suc n))
    ]

pub right-from :
    (vs : List ℕ) (n : ℕ)
    → All IsScalar vs
    → right (from_u32string vs) n ≡ from_u32string (drop (length vs - n) vs)
unfolding right
right-from [] n h =
    rw (utf8_index_map-from [] h) (sym (ap from_u32string (drop-nil (0 - n)) ∙ nil_bytes))
right-from (v ∷ vs) zero h =
    let all = v ∷ vs in
    let whole : length all - 0 ≡ length all = omega arith in
    rw (utf8_index_map-from all h, whole, drop-length all) (sym nil_bytes)
right-from (v ∷ vs) (suc n) h =
    let all = v ∷ vs in
    let some_left : (suc n == 0) ≡ false = ground arith in
    let count = length-spans_of 0 all in
    elim (Bool-cases (leb (length all) (suc n))) [
      | inl e ↦
          let none_cut : length all - suc n ≡ 0 = ground (arith, e) in
          rw (utf8_index_map-from all h, some_left, count, e, none_cut) refl
      | inr e ↦
          rw
            (
              utf8_index_map-from all h,
              some_left,
              count,
              e,
              first_at_zero all (length all - suc n) (ground (arith, e)),
            )
            (drop_bytes all (length all - suc n))
    ]

take_further : (vs : List ℕ) (pos n : ℕ) → take (pos + n) vs ≡ take pos vs ++ take n (drop pos vs)
take_further vs zero n = ap (λ k. take k vs) (omega arith)
take_further [] (suc pos) n = take-nil (suc pos + n) ∙ sym (take-nil n)
take_further (v ∷ vs) (suc pos) n =
    let next : suc pos + n ≡ suc (pos + n) = omega arith in
    rw next (ap (◌∷◌ v) (take_further vs pos n))

byte_count_lem : (start n : ℕ) → byte_count start (start + n) ≡ n
unfolding byte_count
byte_count_lem start n = ground arith

-- The bytes of a range of code points.
range_bytes :
    (vs : List ℕ) (pos n : ℕ)
    → substr (from_u32string vs) (length (from_u32string (take pos vs))) (
        byte_count
          (length (from_u32string (take pos vs)))
          (length (from_u32string (take (pos + n) vs))))
      ≡ from_u32string (take n (drop pos vs))
range_bytes vs pos n =
    let before = from_u32string (take pos vs) in
    let part = from_u32string (take n (drop pos vs)) in
    let size : length (from_u32string (take (pos + n) vs)) ≡ length before + length part =
      ap (λ t. length (from_u32string t)) (take_further vs pos n)
      ∙ ap length (from-append (take pos vs) (take n (drop pos vs)))
      ∙ length-append before part in
    rw (size, byte_count_lem (length before) (length part), drop_bytes vs pos)
      (take_bytes (drop pos vs) n)

pub mid-from :
    (vs : List ℕ) (pos count : ℕ)
    → All IsScalar vs
    → pos + count < 2 ^ 64
    → mid (from_u32string vs) pos count ≡ from_u32string (take count (drop pos vs))
unfolding mid
mid-from [] pos count h fits =
    rw (utf8_index_map-from [] h)
      (sym (ap from_u32string (ap (take count) (drop-nil pos) ∙ take-nil count) ∙ nil_bytes))
mid-from (v ∷ vs) pos count h fits =
    let all = v ∷ vs in
    let sum : (pos + count) % 2 ^ 64 ≡ pos + count = omega (arith, fits) in
    let size = length-spans_of 0 all in
    elim (Bool-cases (count == 0 || leb (length all) pos)) [
      | inl e ↦ rw (utf8_index_map-from all h, size, e) (sym (outside all pos count e))
      | inr e ↦ elim (Bool-cases (ltb (length all) (pos + count))) [
        | inl f ↦
            let last : suc (length all - 1) ≡ pos + (length all - pos) = ground (arith, e) in
            rw
              (
                utf8_index_map-from all h,
                size,
                e,
                sum,
                f,
                first_at_zero all pos (ground (arith, e)),
                end_at_zero all (length all - 1) (omega arith)
                    ∙ ap (λ k. length (from_u32string (take k all))) last,
              )
              (range_bytes all pos (length all - pos)
                ∙ ap from_u32string (
                    take_all (drop pos all) (length all - pos) (omega (arith, length-drop pos all))
                    ∙ sym (take_all (drop pos all) count (ground (arith, f, length-drop pos all)))))
        | inr f ↦
            let last : suc (pos + count - 1) ≡ pos + count = ground (arith, e) in
            rw
              (
                utf8_index_map-from all h,
                size,
                e,
                sum,
                f,
                first_at_zero all pos (ground (arith, e)),
                end_at_zero all (pos + count - 1) (ground (arith, e, f))
                    ∙ ap (λ k. length (from_u32string (take k all))) last,
              )
              (range_bytes all pos count)
      ]
    ]
