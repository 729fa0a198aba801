-- ===== src/StringBasic/Wildcard.antt =====
-- `wildcard_match` of j2_library/src/string/string_basic.cpp: `*` and `?` without backtracking, by
-- an anchor at the last `*`. A pointer into a C string is the chars from there up to the NUL.
pub mod Spec
pub mod Fuel
pub mod Rounds
pub mod Laws
use jaytwo_library.Prelude.{
  ℕ, ◌+◌, ◌*◌, zero, suc, Bool, true, false, ◌||◌, [], ◌∷◌, Option, none, some, Bytes, length,
  if◌then◌else◌, ◌==◌,
}

abbrev pub asterisk : ℕ
asterisk = b'*'

abbrev pub question : ℕ
question = b'?'

-- `s.c_str()`: the chars before the first NUL.
unfoldable pub c_str : Bytes → Bytes
c_str [] = []
c_str (c ∷ s) = if c == 0 then [] else c ∷ c_str s

-- `star` and `star_text`: the pattern behind the last `*`, and the text that it was set against.
abbrev pub Anchor : Type 0
Anchor = Option (Bytes × Bytes)

pub data Outcome : Type 0 where
  done : Bool → Outcome
  more : Bytes → Bytes → Anchor → Outcome

-- The loop behind the text: `while (*pat == '*') ++pat; return *pat == '\0'`.
unfoldable pub all_stars : Bytes → Bool
all_stars [] = true
all_stars (p ∷ ps) = if p == asterisk then all_stars ps else false

-- `pat = star + 1; text = ++star_text`. The text at the anchor is never used up there, since it
-- goes on to the text that is left.
unfoldable pub retry : Anchor → Outcome
retry none = done false
retry (some (sp, [])) = done false
retry (some (sp, x ∷ st)) = more st sp (some (sp, st))

-- One round.
wild_step : Bytes → Bytes → Anchor → Outcome
unfolding all_stars retry
wild_step [] pat star = done (all_stars pat)
wild_step (c ∷ t) [] star = retry star
wild_step (c ∷ t) (p ∷ ps) star =
    if p == question || p == c
    then more t ps star
    else if p == asterisk
    then more (c ∷ t) ps (some (ps, c ∷ t))
    else retry star

-- `none`: the fuel ran out.
wild_loop : ℕ → Bytes → Bytes → Anchor → Option Bool
wild_loop zero text pat star = none
wild_loop (suc fuel) text pat star = elim (wild_step text pat star) [
  | done b ↦ some b
  | more t p s ↦ wild_loop fuel t p s
]

-- A bound on the rounds: each sets the anchor back, or shortens the text or the pattern.
unfoldable pub wild_fuel : Bytes → Bytes → ℕ
wild_fuel text pat =
    suc ((suc (length text)) * (length text + length pat + 1) + length text + length pat)

unfoldable pub wildcard_impl : Bytes → Bytes → Option Bool
unfolding wild_loop wild_step wild_fuel
wildcard_impl text pat = wild_loop (wild_fuel text pat) text pat none

unfoldable pub wildcard_match : Bytes → Bytes → Bool
unfolding wildcard_impl c_str
wildcard_match text pattern = elim (wildcard_impl (c_str text) (c_str pattern)) [
  | some b ↦ b
  | none ↦ false
]
