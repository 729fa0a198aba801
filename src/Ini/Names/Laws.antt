-- ===== src/Ini/Names/Laws.antt =====
-- The index when a name goes to the end and when one is erased.
use jaytwo_library.Prelude.{
  ℕ, ◌+◌, zero, suc, Bool, true, false, List, [], ◌∷◌, ◌++◌, Bytes, length, Option, none, some,
  if◌then◌else◌, ◌≡◌, ◌≢◌, refl, sym, ap, subst, ◌∙◌, arith, ◌⊎◌, inl, inr, Bool-cases,
  Option-cases,
}
use jaytwo_library.Text.{str_eq, next}
use jaytwo_library.Text.Find.{str_eq_iff}
use jaytwo_library.Ini.Names.{
  Index, assign, emplace, erase_name, reindex_loop, erase_at, position, Distinct, IsIndex,
}

pub str_eq_self : (a : Bytes) → str_eq a a ≡ true
str_eq_self a = (str_eq_iff a a).1 refl

pub str_eq_sym : (a b : Bytes) → str_eq a b ≡ str_eq b a
unfolding str_eq
str_eq_sym [] [] = refl
str_eq_sym [] (b ∷ bs) = refl
str_eq_sym (a ∷ x) [] = refl
str_eq_sym (a ∷ x) (b ∷ y) = ground (arith, str_eq_sym x y)

pub position-snoc :
    (names : List Bytes) (n name : Bytes)
    → position (names ++ n ∷ []) name ≡ elim (position names name) [
      | some i ↦ some i
      | none ↦ if str_eq name n then some (length names) else none
    ]
unfolding position
position-snoc [] n name = ground arith
position-snoc (m ∷ names) n name = ground (arith, position-snoc names n name)

Distinct-snoc :
    (names : List Bytes) (n : Bytes)
    → Distinct names
    → position names n ≡ none
    → Distinct (names ++ n ∷ [])
unfolding position
Distinct-snoc [] n d h = (refl, tt)
Distinct-snoc (m ∷ names) n (new, d) h = (
  rw (position-snoc names n m, new, str_eq_sym m n) (ground (arith, h)),
  Distinct-snoc names n d (ground (arith, h)),
)

assign_there :
    (index : Index) (n : Bytes) (i : ℕ) (name : Bytes)
    → str_eq name n ≡ false
    → assign index n i name ≡ index name
unfolding assign
assign_there index n i name e = rw e refl

kept_or :
    (b : Bool) (o : Option ℕ) (v : ℕ)
    → b ≡ false
    → o ≡ elim o [ some i ↦ some i | none ↦ if b then some v else none ]
kept_or b none v e = rw e refl
kept_or b (some i) v e = refl

emplace_finds :
    (index : Index) (names : List Bytes) (n name : Bytes)
    → position names n ≡ none
    → index n ≡ none
    → index name ≡ position names name
    → emplace index n (length names) name ≡ elim (position names name) [
      | some i ↦ some i
      | none ↦ if str_eq name n then some (length names) else none
    ]
unfolding emplace
emplace_finds index names n name absent new here = elim (Bool-cases (str_eq name n)) [
  | inl e ↦
      let gone : position names name ≡ none =
        ap (position names) ((str_eq_iff name n).0 e) ∙ absent in
      rw (emplace, new, gone, e) refl
  | inr e ↦
      rw (emplace, new)
        (assign_there index n (length names) name e
          ∙ here
          ∙ kept_or (str_eq name n) (position names name) (length names) e)
]

-- A new name goes to the end.
pub emplace-IsIndex :
    (index : Index) (names : List Bytes) (n : Bytes)
    → IsIndex index names
    → index n ≡ none
    → IsIndex (emplace index n (length names)) (names ++ n ∷ [])
emplace-IsIndex index names n h new =
    let absent : position names n ≡ none = sym (h.finds n) ∙ new in
    record {
      distinct = Distinct-snoc names n h.distinct absent;
      finds = λ name.
          emplace_finds index names n name absent new (h.finds name)
          ∙ sym (position-snoc names n name);
    }

shifted :
    (i : ℕ) (b : Bool) (o d d' : Option ℕ)
    → b ≡ false
    → d' ≡ d
    → elim o [ some j ↦ some (suc i + j) | none ↦ d' ]
      ≡ elim (if b then some 0 else next o) [ some j ↦ some (i + j) | none ↦ d ]
shifted i b none d d' e same = rw e same
shifted i b (some j) d d' e same = rw e (ap some (omega arith))

-- The loop writes the position of every name, and keeps the others.
reindex_lem :
    (names : List Bytes) (i : ℕ) (index : Index) (name : Bytes)
    → Distinct names
    → reindex_loop names i index name
      ≡ elim (position names name) [ some j ↦ some (i + j) | none ↦ index name ]
unfolding reindex_loop position
reindex_lem [] i index name d = refl
reindex_lem (n ∷ names) i index name (new, d) =
    reindex_lem names (suc i) (assign index n i) name d ∙ elim (Bool-cases (str_eq name n)) [
      | inl e ↦
          let gone : position names name ≡ none =
            ap (position names) ((str_eq_iff name n).0 e) ∙ new in
          rw (gone, e) (ap some (omega arith))
      | inr e ↦
          shifted i (str_eq name n) (position names name) (index name) (assign index n i name) e
            (assign_there index n i name e)
    ]

erase_none :
    (names : List Bytes) (i : ℕ) (name : Bytes)
    → position names name ≡ none
    → position (erase_at names i) name ≡ none
unfolding position
erase_none [] i name h = h
erase_none (n ∷ names) zero name h = ground (arith, h)
erase_none (n ∷ names) (suc i) name h = ground (arith, h, erase_none names i name)

erase-Distinct : (names : List Bytes) (i : ℕ) → Distinct names → Distinct (erase_at names i)
erase-Distinct [] i d = d
erase-Distinct (n ∷ names) zero d = d.1
erase-Distinct (n ∷ names) (suc i) d = (erase_none names i n d.0, erase-Distinct names i d.1)

pub index-injective : {i j : ℕ} → some i ≡ some j → i ≡ j
index-injective e = ap (λ o. elim o [ some k ↦ k | none ↦ 0 ]) e

pub some≢none : {i : ℕ} → some i ≢ none
some≢none e = cc

pub next-none : (o : Option ℕ) → next o ≡ none → o ≡ none
next-none none e = refl
next-none (some i) e = cc

pub position_here :
    (names : List Bytes) (m n : Bytes) → str_eq n m ≡ true → position (m ∷ names) n ≡ some 0
unfolding position
position_here names m n e = rw e refl

pub position_there :
    (names : List Bytes) (m n : Bytes)
    → str_eq n m ≡ false
    → position (m ∷ names) n ≡ next (position names n)
unfolding position
position_there names m n e = rw e refl

-- A name is at the front, or further on.
pub position_cases :
    (names : List Bytes) (m n : Bytes) (i : ℕ)
    → position (m ∷ names) n ≡ some i
    → ((n ≡ m) × (i ≡ 0))
      ⊎ ((str_eq n m ≡ false) × (k : ℕ) × (i ≡ suc k) × (position names n ≡ some k))
position_cases names m n i at = elim (Bool-cases (str_eq n m)) [
  | inl e ↦ inl ((str_eq_iff n m).0 e, sym (index-injective (sym (position_here names m n e) ∙ at)))
  | inr e ↦ elim (Option-cases (position names n)) [
    | inl lost ↦ absurd (some≢none (sym at ∙ position_there names m n e ∙ ap next lost))
    | inr (k, found) ↦
        inr (e, k, index-injective (sym at ∙ position_there names m n e ∙ ap next found), found)
  ]
]

-- Where an erased name was, no other is lost.
erase_rest :
    (names : List Bytes) (n name : Bytes) (i : ℕ)
    → position names n ≡ some i
    → str_eq name n ≡ false
    → position (erase_at names i) name ≡ none
    → position names name ≡ none
erase_rest [] n name i at other gone = gone
erase_rest (m ∷ names) n name i at other gone = elim (position_cases names m n i at) [
  | inl (same, z) ↦
      let left : position names name ≡ none =
        subst (λ k. position (erase_at (m ∷ names) k) name ≡ none) z gone in
      let miss : str_eq name m ≡ false = rw (← same) other in
      position_there names m name miss ∙ ap next left
  | inr (e, k, z, found) ↦
      let left : position (m ∷ erase_at names k) name ≡ none =
        subst (λ t. position (erase_at (m ∷ names) t) name ≡ none) z gone in
      elim (Bool-cases (str_eq name m)) [
        | inl hit ↦ absurd (some≢none (sym (position_here (erase_at names k) m name hit) ∙ left))
        | inr miss ↦
            position_there names m name miss
            ∙ ap next (
                erase_rest names n name k found other (
                  next-none (position (erase_at names k) name)
                    (sym (position_there (erase_at names k) m name miss) ∙ left)))
      ]
]

-- A name is erased, and the index made again.
pub reindex-IsIndex :
    (index : Index) (names : List Bytes) (n : Bytes) (i : ℕ)
    → IsIndex index names
    → index n ≡ some i
    → IsIndex (reindex_loop (erase_at names i) 0 (erase_name index n)) (erase_at names i)
reindex-IsIndex index names n i h at = record {
  distinct = erase-Distinct names i h.distinct;
  finds = λ name.
      reindex_lem (erase_at names i) 0 (erase_name index n) name (erase-Distinct names i h.distinct)
      ∙ elim (Option-cases (position (erase_at names i) name)) [
        | inl none_left ↦ rw none_left (
            unfold erase_name in
            elim (Bool-cases (str_eq name n)) [
              | inl e ↦ rw e refl
              | inr e ↦
                  rw e (h.finds name ∙ erase_rest names n name i (sym (h.finds n) ∙ at) e none_left)
            ])
        | inr (j, found) ↦ rw found (ap some (omega arith))
      ];
}

pub emplace_self :
    (index : Index) (n : Bytes) (i : ℕ) → index n ≡ none → emplace index n i n ≡ some i
unfolding emplace assign
emplace_self index n i new =
    let self : str_eq n n ≡ true = str_eq_self n in rw (new, self, emplace) refl
