-- ===== src/U8Str.antt =====
-- The class `u8str` of j2_library/src/string/u8string.cpp. Its one field `value_` is a list of bytes;
-- a method that changes it returns the new one. The overloads for a C string make a `u8str` of it
-- first. `none` is the index -1.
pub mod Spans
pub mod Cuts
pub mod Points
pub mod Agrees
mod Tests
use jaytwo_library.Prelude.{
  ℕ, ◌+◌, ◌-◌, ◌*◌, ◌%◌, ◌^◌, zero, suc, min, Bool, true, false, not, ◌&&◌, ◌||◌, List, [], ◌∷◌,
  ◌++◌, Option, none, some, Bytes, length, take, drop, get_elem?, replicate, is_empty,
  if◌then◌else◌, ltb, leb, ◌==◌, reverse,
}
use jaytwo_library.Text.{equal, str_eq, find, rfind, substr, drop_while}
use jaytwo_library.U8String.{next_code_point}

unfoldable pub starts_with : Bytes → Bytes → Bool
starts_with s prefix = if ltb (length s) (length prefix) then false else equal prefix s

unfoldable pub ends_with : Bytes → Bytes → Bool
ends_with s suffix =
    if ltb (length s) (length suffix)
    then false
    else equal suffix (drop (length s - length suffix) s)

unfoldable pub contains : Bytes → Bytes → Bool
contains s needle =
    if is_empty needle then true else elim (find s needle 0) [ none ↦ false | some at ↦ true ]

unfoldable pub index_of : Bytes → Bytes → ℕ → Option ℕ
index_of s needle start = if is_empty needle then some 0 else find s needle start

unfoldable pub last_index_of : Bytes → Bytes → Option ℕ
last_index_of s needle = if is_empty needle then some 0 else rfind needle s

unfoldable pub is_ascii_space : ℕ → Bool
is_ascii_space c = c == 32 || (c == 9 || (c == 10 || (c == 13 || (c == 12 || c == 11))))

unfoldable pub ltrim : Bytes → Bytes
ltrim s = drop_while is_ascii_space s

-- The search for the end runs over the reversed text.
unfoldable pub rtrim : Bytes → Bytes
rtrim s = reverse (drop_while is_ascii_space (reverse s))

unfoldable pub trim : Bytes → Bytes
unfolding ltrim rtrim
trim s = rtrim (ltrim s)

-- The rounds are bounded by the bytes: each one moves `pos` on by a whole delimiter.
unfoldable pub split_loop : ℕ → Bytes → Bytes → Bool → ℕ → List Bytes → List Bytes
split_loop zero s delim skip pos result = result
split_loop (suc fuel) s delim skip pos result = elim (find s delim pos) [
  | none ↦
      let tail = drop pos s in
      if not (is_empty tail) || not skip then result ++ tail ∷ [] else result
  | some next ↦
      let part = substr s pos (next - pos) in
      split_loop fuel s delim skip (next + length delim)
        (if not (is_empty part) || not skip then result ++ part ∷ [] else result)
]

unfoldable pub split : Bytes → Bytes → Bool → List Bytes
unfolding split_loop
split s delim skip =
    if is_empty delim then s ∷ [] else split_loop (suc (length s)) s delim skip 0 []

-- `value_.replace(pos, count, to)`.
abbrev pub splice : Bytes → ℕ → ℕ → Bytes → Bytes
splice s pos count to = take pos s ++ (to ++ drop (pos + count) s)

unfoldable pub replace : Bytes → Bytes → Bytes → Bytes
replace s from to =
    if is_empty from
    then s
    else elim (find s from 0) [ none ↦ s | some pos ↦ splice s pos (length from) to ]

unfoldable pub replace_all_loop : ℕ → Bytes → ℕ → Bytes → Bytes → Bytes
replace_all_loop zero s pos from to = s
replace_all_loop (suc fuel) s pos from to = elim (find s from pos) [
  | none ↦ s
  | some at ↦ replace_all_loop fuel (splice s at (length from) to) (at + length to) from to
]

unfoldable pub replace_all : Bytes → Bytes → Bytes → Bytes
unfolding replace_all_loop
replace_all s from to = if is_empty from then s else replace_all_loop (suc (length s)) s 0 from to

-- The loop of `utf8_index_map`, at byte `start` with the bytes from there on, and the rounds left.
unfoldable pub index_map_loop : ℕ → Bytes → ℕ → List (ℕ × ℕ)
unfolding next_code_point
index_map_loop zero s start = []
index_map_loop (suc fuel) s start = elim (next_code_point s) [
  | none ↦ []
  | some (cp, len) ↦ (start, len) ∷ index_map_loop fuel (drop len s) (start + len)
]

-- The start and the length of each code point.
unfoldable pub utf8_index_map : Bytes → List (ℕ × ℕ)
unfolding index_map_loop
utf8_index_map s = index_map_loop (length s) s 0

-- `map[i].first` and `map[i].first + map[i].second`, for an `i` within the map.
abbrev pub first_at : List (ℕ × ℕ) → ℕ → ℕ
first_at [] i = 0
first_at ((start, len) ∷ spans) zero = start
first_at ((start, len) ∷ spans) (suc i) = first_at spans i

abbrev pub end_at : List (ℕ × ℕ) → ℕ → ℕ
end_at [] i = 0
end_at ((start, len) ∷ spans) zero = start + len
end_at ((start, len) ∷ spans) (suc i) = end_at spans i

unfoldable pub left : Bytes → ℕ → Bytes
left s n =
    let spans = utf8_index_map s in
    if is_empty spans || n == 0
    then []
    else if leb (length spans) n
    then s
    else substr s 0 (end_at spans (n - 1))

unfoldable pub right : Bytes → ℕ → Bytes
right s n =
    let spans = utf8_index_map s in
    if is_empty spans || n == 0
    then []
    else if leb (length spans) n
    then s
    else drop (first_at spans (length spans - n)) s

-- `byte_end - byte_start` in 64 bits.
unfoldable pub byte_count : ℕ → ℕ → ℕ
byte_count byte_start byte_end =
    if ltb byte_end byte_start then byte_end + 2 ^ 64 - byte_start else byte_end - byte_start

-- The sum of position and count is in 64 bits too. Where it wraps to 0, the source reads before the
-- map, which is undefined.
unfoldable pub mid : Bytes → ℕ → ℕ → Bytes
unfolding byte_count
mid s pos count =
    let spans = utf8_index_map s in
    let sum = (pos + count) % 2 ^ 64 in
    let end_pos = if ltb (length spans) sum then length spans else sum in
    if is_empty spans || (count == 0 || leb (length spans) pos)
    then []
    else substr s (first_at spans pos)
        (byte_count (first_at spans pos) (end_at spans (end_pos - 1)))

unfoldable pub substr_utf8 : Bytes → ℕ → ℕ → Bytes
unfolding mid
substr_utf8 s pos count = mid s pos count

-- The loop of `reverse_utf8` over the map from its end.
unfoldable pub reverse_loop : Bytes → List (ℕ × ℕ) → Bytes
reverse_loop s [] = []
reverse_loop s ((start, len) ∷ spans) = reverse_loop s spans ++ substr s start len

unfoldable pub reverse_utf8 : Bytes → Bytes
unfolding reverse_loop
reverse_utf8 s =
    let spans = utf8_index_map s in if leb (length spans) 1 then s else reverse_loop s spans

unfoldable pub pad_left : Bytes → ℕ → ℕ → Bytes
pad_left s total_width fill =
    let len_cp = length (utf8_index_map s) in
    if leb total_width len_cp then s else replicate (total_width - len_cp) fill ++ s

unfoldable pub pad_right : Bytes → ℕ → ℕ → Bytes
pad_right s total_width fill =
    let len_cp = length (utf8_index_map s) in
    if leb total_width len_cp then s else s ++ replicate (total_width - len_cp) fill

-- The new value, and whether the prefix or suffix was there.
unfoldable pub strip_prefix : Bytes → Bytes → Bytes × Bool
unfolding starts_with
strip_prefix s prefix = if starts_with s prefix then (drop (length prefix) s, true) else (s, false)

unfoldable pub strip_suffix : Bytes → Bytes → Bytes × Bool
unfolding ends_with
strip_suffix s suffix =
    if ends_with s suffix then (take (length s - length suffix) s, true) else (s, false)

unfoldable pub to_lower_ascii : ℕ → ℕ
to_lower_ascii c = if leb b'A' c && leb c b'Z' then c + (b'a' - b'A') else c

unfoldable pub same_lower : Bytes → Bytes → Bool
unfolding to_lower_ascii
same_lower [] t = true
same_lower (a ∷ s) [] = true
same_lower (a ∷ s) (b ∷ t) =
    let rest = same_lower s t in if not (to_lower_ascii a == to_lower_ascii b) then false else rest

unfoldable pub equals_ignore_case_ascii : Bytes → Bytes → Bool
unfolding same_lower
equals_ignore_case_ascii s other =
    if not (length s == length other) then false else same_lower s other

unfoldable pub to_lower : Bytes → Bytes
to_lower [] = []
to_lower (c ∷ s) = (if leb b'A' c && leb c b'Z' then c + (b'a' - b'A') else c) ∷ to_lower s

unfoldable pub to_upper : Bytes → Bytes
to_upper [] = []
to_upper (c ∷ s) = (if leb b'a' c && leb c b'z' then c - (b'a' - b'A') else c) ∷ to_upper s

unfoldable pub to_lower_copy : Bytes → Bytes
unfolding to_lower
to_lower_copy s = to_lower s

unfoldable pub to_upper_copy : Bytes → Bytes
unfolding to_upper
to_upper_copy s = to_upper s

-- `operator+=` and `operator+`, and `operator==` and `operator!=`.
unfoldable pub append : Bytes → Bytes → Bytes
append s o = s ++ o

unfoldable pub equals : Bytes → Bytes → Bool
equals a b = str_eq a b

unfoldable pub differs : Bytes → Bytes → Bool
unfolding equals
differs a b = not (equals a b)
