-- ===== src/Broker/Listing.antt =====
-- The lists of a type's instances.
use jaytwo_library.Prelude.{
  ℕ, true, List, [], ◌∷◌, Option, none, some, Bytes, ◌==◌, ◌≡◌, ◌≢◌, ◌⊎◌, ◌↔◌, inl, inr, refl, sym,
  ap, subst, ◌∙◌, arith, Bool-cases, Option-cases,
}
use jaytwo_library.Broker.{
  Key, same_key, Held, Storage, find_key, get, pointer_of, get_all_with_names,
}
use jaytwo_library.Broker.Reads.{
  same_key-equal, same_key_self, find_key-here, find_key-later, IsValid, Call, run, run-IsValid,
  pointer_in,
}

-- The name and the pointer stand in the list.
abbrev pub Listed : Bytes → ℕ → List (Bytes × ℕ) → Type 0
Listed name p [] = ⊥
Listed name p ((n, q) ∷ l) = ((n ≡ name) × (q ≡ p)) ⊎ Listed name p l

-- The key of a type and a name.
abbrev pub key_of : ℕ → Bytes → Key
key_of type name = record { type = type; name = name }

list-some :
    (k : Key) (a : Held) (s : Storage) (type p : ℕ)
    → pointer_of type (k, a) ≡ some p
    → get_all_with_names ((k, a) ∷ s) type ≡ (k.name, p) ∷ get_all_with_names s type
unfolding get_all_with_names
list-some k a s type p e = rw (e, get_all_with_names) refl

list-none :
    (k : Key) (a : Held) (s : Storage) (type : ℕ)
    → pointer_of type (k, a) ≡ none
    → get_all_with_names ((k, a) ∷ s) type ≡ get_all_with_names s type
unfolding get_all_with_names
list-none k a s type e = rw (e, get_all_with_names) refl

-- An entry of the type gives its pointer, if there is one.
pointer_of-key :
    (k : Key) (a : Held) (type : ℕ) (name : Bytes)
    → same_key k (key_of type name) ≡ true
    → pointer_of type (k, a) ≡ pointer_in type (some a)
pointer_of-key k a type name e =
    let same : (k.type == type) ≡ true =
      ap (λ x. x.type == type) (same_key-equal k (key_of type name) e) ∙ ground arith in
    rw same refl

none-not-some : {p : ℕ} → ◌≢◌ {A = Option ℕ} none (some p)
none-not-some e = cc

same_pointer : {p q : ℕ} → ◌≡◌ {A = Option ℕ} (some p) (some q) → p ≡ q
same_pointer e = cc

-- What a later entry has is found, as the keys differ.
found_later :
    (k : Key) (a : Held) (s : Storage) (type : ℕ) (name : Bytes) (p : ℕ)
    → find_key s k ≡ none
    → pointer_in type (find_key s (key_of type name)) ≡ some p
    → pointer_in type (find_key ((k, a) ∷ s) (key_of type name)) ≡ some p
found_later k a s type name p alone found = elim (Bool-cases (same_key k (key_of type name))) [
  | inl e ↦
      let same = same_key-equal k (key_of type name) e in
      absurd (
        none-not-some (
          ap (pointer_in type) (sym alone) ∙ ap (λ x. pointer_in type (find_key s x)) same ∙ found))
  | inr e ↦ ap (pointer_in type) (find_key-later (key_of type name) k a s e) ∙ found
]

type_of_pointer :
    (k : Key) (a : Held) (type p : ℕ) → pointer_of type (k, a) ≡ some p → k.type ≡ type
type_of_pointer k a type p e = elim (Bool-cases (k.type == type)) [
  | inl f ↦ ground arith
  | inr f ↦ absurd (none-not-some (sym (rw f refl) ∙ e))
]

-- An entry that is listed under its name is the one that is found.
found_here :
    (k : Key) (a : Held) (s : Storage) (type p : ℕ)
    → pointer_of type (k, a) ≡ some p
    → pointer_in type (find_key ((k, a) ∷ s) (key_of type k.name)) ≡ some p
found_here k a s type p e =
    let same : k ≡ key_of type k.name = ap (λ t. key_of t k.name) (type_of_pointer k a type p e) in
    let here : same_key k (key_of type k.name) ≡ true =
      ap (same_key k) (sym same) ∙ same_key_self k in
    ap (pointer_in type) (find_key-here (key_of type k.name) k a s here)
    ∙ sym (pointer_of-key k a type k.name here)
    ∙ e

to_get :
    (s : Storage) (type : ℕ) (name : Bytes) (p : ℕ)
    → IsValid s
    → Listed name p (get_all_with_names s type)
    → pointer_in type (find_key s (key_of type name)) ≡ some p
unfolding get_all_with_names
to_get [] type name p h c = absurd c
to_get ((k, a) ∷ s) type name p (typed, alone, h) c = elim (Option-cases (pointer_of type (k, a))) [
  | inl e ↦
      found_later k a s type name p alone
        (to_get s type name p h (subst (Listed name p) (list-none k a s type e) c))
  | inr (q, e) ↦ elim (subst (Listed name p) (list-some k a s type q e) c) [
    | inl (n, m) ↦
        subst (λ x. pointer_in type (find_key ((k, a) ∷ s) (key_of type x)) ≡ some p) n
          (found_here k a s type q e ∙ ap some m)
    | inr later ↦ found_later k a s type name p alone (to_get s type name p h later)
  ]
]

still_there :
    (k : Key) (a : Held) (s : Storage) (type : ℕ) (name : Bytes) (p : ℕ)
    → Listed name p (get_all_with_names s type)
    → Listed name p (get_all_with_names ((k, a) ∷ s) type)
still_there k a s type name p c = elim (Option-cases (pointer_of type (k, a))) [
  | inl e ↦ subst (Listed name p) (sym (list-none k a s type e)) c
  | inr (q, e) ↦ subst (Listed name p) (sym (list-some k a s type q e)) (inr c)
]

from_get :
    (s : Storage) (type : ℕ) (name : Bytes) (p : ℕ)
    → pointer_in type (find_key s (key_of type name)) ≡ some p
    → Listed name p (get_all_with_names s type)
unfolding find_key
from_get [] type name p found = absurd (none-not-some found)
from_get ((k, a) ∷ s) type name p found = elim (Bool-cases (same_key k (key_of type name))) [
  | inl e ↦
      let here : pointer_of type (k, a) ≡ some p =
        pointer_of-key k a type name e
        ∙ ap (pointer_in type) (sym (find_key-here (key_of type name) k a s e))
        ∙ found in
      subst (Listed name p) (sym (list-some k a s type p here))
        (inl (ap (λ x. x.name) (same_key-equal k (key_of type name) e), refl))
  | inr e ↦ still_there k a s type name p (
      from_get s type name p
        (ap (pointer_in type) (sym (find_key-later (key_of type name) k a s e)) ∙ found))
]

-- After any calls, `get_all_with_names` lists a name with an object exactly if `get` finds that object
-- under the type and the name.
pub get_all_with_names-get :
    (calls : List Call) (type : ℕ) (name : Bytes) (p : ℕ)
    → Listed name p (get_all_with_names (run [] calls) type)
      ↔ (get (run [] calls) type name ≡ some p)
unfolding get
get_all_with_names-get calls type name p =
    (to_get (run [] calls) type name p (run-IsValid calls), from_get (run [] calls) type name p)
