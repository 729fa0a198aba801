-- ===== src/Broker/Reads.antt =====
-- Reads after registering and unregistering.
use jaytwo_library.Prelude.{
  ℕ, true, false, List, [], ◌∷◌, Option, none, some, Bytes, if◌then◌else◌, ◌==◌, ◌≡◌, ◌≢◌, inl, inr,
  refl, sym, ap, subst, ◌∙◌, arith, Bool-cases,
}
use jaytwo_library.Text.Find.{str_eq_iff}
use jaytwo_library.Broker.{
  Key, same_key, Pointer, Held, Storage, any_cast, find_key, assign, erase_key, register_instance,
  get, unregister_instance, clear, guard_enter, guard_leave,
}

pub same_key-equal : (a b : Key) → same_key a b ≡ true → a ≡ b
unfolding same_key
same_key-equal a b e =
    let type : a.type ≡ b.type = ground arith in
    let name : a.name ≡ b.name = (str_eq_iff a.name b.name).0 (ground arith) in ground arith

pub same_key_self : (a : Key) → same_key a a ≡ true
unfolding same_key
same_key_self a = ground (arith, (str_eq_iff a.name a.name).1 refl)

pub find_key-here :
    (k k' : Key) (a : Held) (s : Storage) → same_key k' k ≡ true → find_key ((k', a) ∷ s) k ≡ some a
unfolding find_key
find_key-here k k' a s e = rw (e, find_key) refl

pub find_key-later :
    (k k' : Key) (a : Held) (s : Storage)
    → same_key k' k ≡ false
    → find_key ((k', a) ∷ s) k ≡ find_key s k
unfolding find_key
find_key-later k k' a s e = rw (e, find_key) refl

-- Two keys that are the same agree on a third.
same_key-left : (a b c : Key) → same_key a b ≡ true → same_key a c ≡ same_key b c
same_key-left a b c e = ap (λ k. same_key k c) (same_key-equal a b e)

true-not-false : true ≢ false
true-not-false e = cc

same_key-apart :
    (q k k' : Key) → same_key q k ≡ false → same_key q k' ≡ true → same_key k k' ≡ false
same_key-apart q k k' e f = elim (Bool-cases (same_key k k')) [
  | inr g ↦ g
  | inl g ↦
      let same : q ≡ k = same_key-equal q k' f ∙ sym (same_key-equal k k' g) in
      absurd (true-not-false (sym (same_key_self k) ∙ ap (λ x. same_key x k) (sym same) ∙ e))
]

same_key-sym : (a b : Key) → same_key a b ≡ same_key b a
same_key-sym a b = elim (Bool-cases (same_key a b)) [
  | inl e ↦
      ap (λ x. same_key x b) (same_key-equal a b e) ∙ ap (same_key b) (sym (same_key-equal a b e))
  | inr e ↦ elim (Bool-cases (same_key b a)) [
    | inr f ↦ e ∙ sym f
    | inl f ↦
        absurd (
          true-not-false (sym (same_key_self a) ∙ ap (same_key a) (sym (same_key-equal b a f)) ∙ e))
  ]
]

pub find_key-assign :
    (s : Storage) (k k' : Key) (a : Held)
    → find_key (assign s k a) k' ≡ (if same_key k k' then some a else find_key s k')
unfolding assign find_key
find_key-assign [] k k' a = refl
find_key-assign ((q, b) ∷ s) k k' a = elim (Bool-cases (same_key q k)) [
  | inl e ↦
      rw (e, assign)
        (elim (Bool-cases (same_key k k')) [
          | inl f ↦ rw (f, same_key-left q k k' e ∙ f) refl
          | inr f ↦ rw (f, same_key-left q k k' e ∙ f) refl
        ])
  | inr e ↦
      let rest = find_key-assign s k k' a in
      rw (e, assign)
        (elim (Bool-cases (same_key q k')) [
          | inl f ↦ rw (f, same_key-apart q k k' e f) refl
          | inr f ↦ rw (f, find_key) rest
        ])
]

-- Entries with keys of their own, each of which holds a pointer of its key's type.
abbrev pub IsValid : Storage → Type 0
IsValid [] = Unit
IsValid ((k, a) ∷ s) = (a.held ≡ k.type) × (find_key s k ≡ none) × IsValid s

pub find_key-erase_key :
    (s : Storage) (k k' : Key)
    → IsValid s
    → find_key (erase_key s k) k' ≡ (if same_key k k' then none else find_key s k')
unfolding erase_key find_key
find_key-erase_key [] k k' h = elim (Bool-cases (same_key k k')) [
  | inl e ↦ rw e refl
  | inr e ↦ rw e refl
]
find_key-erase_key ((q, b) ∷ s) k k' (typed, alone, h) = elim (Bool-cases (same_key q k)) [
  | inl e ↦
      let same = same_key-equal q k e in
      rw (e, erase_key)
        (elim (Bool-cases (same_key k k')) [
          | inl f ↦
              rw f
                (ap (find_key s) (sym (same_key-equal q k' (same_key-left q k k' e ∙ f))) ∙ alone)
          | inr f ↦ rw (f, same_key-left q k k' e ∙ f) refl
        ])
  | inr e ↦
      let rest = find_key-erase_key s k k' h in
      rw (e, erase_key)
        (elim (Bool-cases (same_key q k')) [
          | inl f ↦ rw (f, same_key-apart q k k' e f) refl
          | inr f ↦ rw (f, find_key) rest
        ])
]

assign-here :
    (q k : Key) (a b : Held) (s : Storage)
    → same_key q k ≡ true
    → assign ((q, b) ∷ s) k a ≡ (q, a) ∷ s
unfolding assign
assign-here q k a b s e = rw (e, assign) refl

assign-later :
    (q k : Key) (a b : Held) (s : Storage)
    → same_key q k ≡ false
    → assign ((q, b) ∷ s) k a ≡ (q, b) ∷ assign s k a
unfolding assign
assign-later q k a b s e = rw (e, assign) refl

erase_key-here :
    (q k : Key) (b : Held) (s : Storage) → same_key q k ≡ true → erase_key ((q, b) ∷ s) k ≡ s
unfolding erase_key
erase_key-here q k b s e = rw (e, erase_key) refl

erase_key-later :
    (q k : Key) (b : Held) (s : Storage)
    → same_key q k ≡ false
    → erase_key ((q, b) ∷ s) k ≡ (q, b) ∷ erase_key s k
unfolding erase_key
erase_key-later q k b s e = rw (e, erase_key) refl

assign-IsValid :
    (s : Storage) (k : Key) (a : Held) → IsValid s → a.held ≡ k.type → IsValid (assign s k a)
unfolding assign find_key
assign-IsValid [] k a h t = (t, refl, tt)
assign-IsValid ((q, b) ∷ s) k a (typed, alone, h) t = elim (Bool-cases (same_key q k)) [
  | inl e ↦
      subst IsValid (sym (assign-here q k a b s e))
        (t ∙ ap (λ x. x.type) (sym (same_key-equal q k e)), alone, h)
  | inr e ↦
      let apart : find_key (assign s k a) q ≡ none =
        find_key-assign s k q a ∙ rw (same_key-sym k q ∙ e) alone in
      subst IsValid (sym (assign-later q k a b s e)) (typed, apart, assign-IsValid s k a h t)
]

erase_key-IsValid : (s : Storage) (k : Key) → IsValid s → IsValid (erase_key s k)
unfolding erase_key
erase_key-IsValid [] k h = tt
erase_key-IsValid ((q, b) ∷ s) k (typed, alone, h) = elim (Bool-cases (same_key q k)) [
  | inl e ↦ subst IsValid (sym (erase_key-here q k b s e)) h
  | inr e ↦
      let apart : find_key (erase_key s k) q ≡ none =
        find_key-erase_key s k q h ∙ rw (same_key-sym k q ∙ e) alone in
      subst IsValid (sym (erase_key-later q k b s e)) (typed, apart, erase_key-IsValid s k h)
]

-- The calls that change the storage, as a run of them goes.
pub data Call : Type 0 where
  register : ℕ → Bytes → Pointer → Call
  unregister : ℕ → Bytes → Call
  clear_all : Call

abbrev pub call : Storage → Call → Storage
call s (register type name p) = register_instance s type name p
call s (unregister type name) = unregister_instance s type name
call s clear_all = clear s

abbrev pub run : Storage → List Call → Storage
run s [] = s
run s (c ∷ calls) = run (call s c) calls

call-IsValid : (s : Storage) (c : Call) → IsValid s → IsValid (call s c)
unfolding register_instance unregister_instance
call-IsValid s (register type name p) h =
    assign-IsValid s (record { type = type; name = name }) (record { held = type; pointer = p }) h
      refl
call-IsValid s (unregister type name) h =
    erase_key-IsValid s (record { type = type; name = name }) h
call-IsValid s clear_all h = tt

run_from : (s : Storage) (calls : List Call) → IsValid s → IsValid (run s calls)
run_from s [] h = h
run_from s (c ∷ calls) h = run_from (call s c) calls (call-IsValid s c h)

-- After any calls, every key stands once in the storage, and the pointer under a key has its type.
pub run-IsValid : (calls : List Call) → IsValid (run [] calls)
run-IsValid calls = run_from [] calls tt

-- What `get` makes of the entry that is found.
abbrev pub pointer_in : ℕ → Option Held → Pointer
pointer_in type none = none
pointer_in type (some a) = elim (any_cast type a) [ some p ↦ p | none ↦ none ]

same_type : (a b : Key) → same_key a b ≡ true → (a.type == b.type) ≡ true
unfolding same_key
same_type a b e = ground arith

cast_same :
    (type type' : ℕ) (p : Pointer)
    → (type == type') ≡ true
    → pointer_in type' (some (record { held = type; pointer = p })) ≡ p
cast_same type type' p e = rw (pointer_in, e) refl

-- Whatever the storage: a registered pointer is what `get` finds under its type and name, and what `get`
-- finds under another type or name stays. Types are without const: `typeid` drops it, and the model has
-- no const types.
pub get-register_instance :
    (s : Storage) (type : ℕ) (name : Bytes) (p : Pointer) (type' : ℕ) (name' : Bytes)
    → get (register_instance s type name p) type' name' ≡ (
        if same_key (record { type = type; name = name }) (record { type = type'; name = name' })
        then p
        else get s type' name')
unfolding get register_instance
get-register_instance s type name p type' name' =
    let k : Key = record { type = type; name = name } in
    let k' : Key = record { type = type'; name = name' } in
    let a : Held = record { held = type; pointer = p } in
    ap (pointer_in type') (find_key-assign s k k' a) ∙ elim (Bool-cases (same_key k k')) [
      | inl e ↦ rw e (cast_same type type' p (same_type k k' e))
      | inr e ↦ rw e refl
    ]

-- A guard's scope, after any calls before it: at its end the key is free, also where something was
-- registered under it before, and what is under the other keys stays.
pub guard_scope :
    (calls : List Call) (type : ℕ) (name : Bytes) (p : Pointer) (type' : ℕ) (name' : Bytes)
    → find_key
        (guard_leave (guard_enter (run [] calls) type name p) type name)
        (record { type = type'; name = name' })
      ≡ (if same_key (record { type = type; name = name }) (record { type = type'; name = name' })
          then none
          else find_key (run [] calls) (record { type = type'; name = name' }))
unfolding guard_leave guard_enter register_instance unregister_instance
guard_scope calls type name p type' name' =
    let s = run [] calls in
    let k : Key = record { type = type; name = name } in
    let k' : Key = record { type = type'; name = name' } in
    let a : Held = record { held = type; pointer = p } in
    find_key-erase_key (assign s k a) k k' (assign-IsValid s k a (run-IsValid calls) refl)
    ∙ elim (Bool-cases (same_key k k')) [
      | inl e ↦ rw e refl
      | inr e ↦ rw (e, find_key-assign s k k' a, e) refl
    ]
