-- ===== src/Broker.antt =====
-- The object broker of j2_library/include/j2_library/broker/object_broker.hpp. A type is its number, and
-- there are no const types: of `T` and `const T` the `typeid` of the key is the same, but what `std::any`
-- holds is not, and for those `get` can give null where an object is registered. A
-- `shared_ptr` the number of its object or none for a null pointer, and a `std::any` the type that it
-- holds with the pointer. The storage is the entries in the order in which the map goes through them,
-- which the source leaves open. Each method holds the mutex while it works.
pub mod Reads
pub mod Listing
mod Tests
use jaytwo_library.Prelude.{
  ℕ, Bool, true, false, ◌&&◌, List, [], ◌∷◌, Option, none, some, Bytes, codes, if◌then◌else◌, ◌==◌,
}
use jaytwo_library.Text.{str_eq}

pub record Key : Type 0 where
  pub type : ℕ
  pub name : Bytes

-- `operator==`.
unfoldable pub same_key : Key → Key → Bool
same_key a b = a.type == b.type && str_eq a.name b.name

abbrev pub Pointer : Type 0
Pointer = Option ℕ

pub record Held : Type 0 where
  pub held : ℕ
  pub pointer : Pointer

abbrev pub Storage : Type 0
Storage = List (Key × Held)

-- `std::any_cast<std::shared_ptr<T>>`, where `none` is the exception.
abbrev pub any_cast : ℕ → Held → Option Pointer
any_cast type a = if a.held == type then some a.pointer else none

-- `storage_.find`, `storage_[key] = value` and `storage_.erase(key)`.
unfoldable pub find_key : Storage → Key → Option Held
unfolding same_key
find_key [] k = none
find_key ((k', a) ∷ s) k = let rest = find_key s k in if same_key k' k then some a else rest

unfoldable pub assign : Storage → Key → Held → Storage
unfolding same_key
assign [] k a = (k, a) ∷ []
assign ((k', b) ∷ s) k a =
    let rest = assign s k a in if same_key k' k then (k', a) ∷ s else (k', b) ∷ rest

unfoldable pub erase_key : Storage → Key → Storage
unfolding same_key
erase_key [] k = []
erase_key ((k', b) ∷ s) k = let rest = erase_key s k in if same_key k' k then s else (k', b) ∷ rest

abbrev pub default_name : Bytes
default_name = codes "__default__"

unfoldable pub register_instance : Storage → ℕ → Bytes → Pointer → Storage
unfolding assign
register_instance s type name instance' =
    assign s (record { type = type; name = name }) (record { held = type; pointer = instance' })

unfoldable pub register_default : Storage → ℕ → Pointer → Storage
unfolding register_instance
register_default s type instance' = register_instance s type default_name instance'

-- A missing key and a failed cast give the null pointer.
unfoldable pub get : Storage → ℕ → Bytes → Pointer
unfolding find_key
get s type name = elim (find_key s (record { type = type; name = name })) [
  | none ↦ none
  | some a ↦ elim (any_cast type a) [ some p ↦ p | none ↦ none ]
]

unfoldable pub contains : Storage → ℕ → Bytes → Bool
unfolding find_key
contains s type name = elim (find_key s (record { type = type; name = name })) [
  | none ↦ false
  | some a ↦ true
]

unfoldable pub get_optional : Storage → ℕ → Bytes → Option Pointer
unfolding find_key
get_optional s type name = elim (find_key s (record { type = type; name = name })) [
  | none ↦ none
  | some a ↦ any_cast type a
]

unfoldable pub unregister_instance : Storage → ℕ → Bytes → Storage
unfolding erase_key
unregister_instance s type name = erase_key s (record { type = type; name = name })

abbrev pub clear : Storage → Storage
clear s = []

-- The pointer of an entry, if the entry is of the type and the pointer is not null.
abbrev pub pointer_of : ℕ → Key × Held → Option ℕ
pointer_of type (k, a) =
    if k.type == type then elim (any_cast type a) [ some p ↦ p | none ↦ none ] else none

unfoldable pub get_all : Storage → ℕ → List ℕ
get_all [] type = []
get_all ((k, a) ∷ s) type = elim (pointer_of type (k, a)) [
  | some p ↦ p ∷ get_all s type
  | none ↦ get_all s type
]

unfoldable pub get_all_with_names : Storage → ℕ → List (Bytes × ℕ)
get_all_with_names [] type = []
get_all_with_names ((k, a) ∷ s) type = elim (pointer_of type (k, a)) [
  | some p ↦ (k.name, p) ∷ get_all_with_names s type
  | none ↦ get_all_with_names s type
]

unfoldable pub list_names_for_type : Storage → ℕ → List Bytes
list_names_for_type [] type = []
list_names_for_type ((k, a) ∷ s) type =
    let rest = list_names_for_type s type in if k.type == type then k.name ∷ rest else rest

unfoldable pub list_all_names : Storage → List Bytes
list_all_names [] = []
list_all_names ((k, a) ∷ s) = k.name ∷ list_all_names s

-- A name is listed once, in an order that is open too.
abbrev pub seen : Bytes → List Bytes → Bool
seen name [] = false
seen name (n ∷ names) = let rest = seen name names in if str_eq n name then true else rest

unfoldable pub list_unique_names : Storage → List Bytes
list_unique_names [] = []
list_unique_names ((k, a) ∷ s) =
    let rest = list_unique_names s in if seen k.name rest then rest else k.name ∷ rest

unfoldable pub list_all_entries : Storage → List (ℕ × Bytes)
list_all_entries [] = []
list_all_entries ((k, a) ∷ s) = (k.type, k.name) ∷ list_all_entries s

-- The guard's constructor and destructor.
unfoldable pub guard_enter : Storage → ℕ → Bytes → Pointer → Storage
unfolding register_instance
guard_enter s type name instance' = register_instance s type name instance'

unfoldable pub guard_leave : Storage → ℕ → Bytes → Storage
unfolding unregister_instance
guard_leave s type name = unregister_instance s type name
