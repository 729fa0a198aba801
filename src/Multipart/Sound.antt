-- ===== src/Multipart/Sound.antt =====
-- What a part is, and that the loop ends.
use jaytwo_library.Prelude.{
  ℕ, ◌+◌, ◌≤◌, zero, suc, Bool-cases, [], ◌∷◌, ◌++◌, Option, none, some, Bytes, codes, length, drop,
  drop-drop, drop-length, take, take-append-drop, ◌≡◌, ◌⊎◌, refl, sym, ap, subst, ◌∙◌, inl, inr,
  arith, false, length-take, ◌≢◌, append_assoc,
}
use jaytwo_library.Text.{equal, find_first}
use jaytwo_library.Text.Find.{
  equal_sound, find_first_sound, find_first_bound, equal_self, find_first_least,
  find_first_complete,
}
use jaytwo_library.Multipart.Parts.{
  crlf, blank_line, PartAt, no_more, headers_open, part, skip_crlf, data_size, headers_at, part_at,
}

-- No occurrence of `tok` in the text begins before position `n`.
abbrev pub NoneBefore : Bytes → Bytes → ℕ → Type 0
NoneBefore tok s n = (a b : Bytes) → s ≡ a ++ (tok ++ b) → n ≤ length a

-- A line break is taken where one stands, and nothing otherwise.
abbrev pub Skipped : Bytes → Bytes → Type 0
Skipped line_break left =
    ((line_break ≡ []) × ((after : Bytes) → left ≢ 13 ∷ 10 ∷ after)) ⊎ (line_break ≡ 13 ∷ 10 ∷ [])

-- A part of the text `s`: something without the marker, the marker, perhaps a line break, headers
-- without a blank line, a blank line and the data. The data ends before the first line break with
-- the marker behind it, at which the rest begins, and if there is none the data is all that is left.
pub record IsPart (marker s header_block data_bytes rest : Bytes) : Type 0 where
  pub before : Bytes
  pub line_break : Bytes
  pub break_or_none :
      Skipped line_break (header_block ++ (13 ∷ 10 ∷ 13 ∷ 10 ∷ [] ++ (data_bytes ++ rest)))
  pub split :
      s
      ≡ before
        ++ (marker
            ++ (line_break ++ (header_block ++ (13 ∷ 10 ∷ 13 ∷ 10 ∷ [] ++ (data_bytes ++ rest)))))
  pub first_marker : NoneBefore marker s (length before)
  pub not_last : (after : Bytes) → s ≢ before ++ (marker ++ (45 ∷ 45 ∷ after))
  pub first_blank :
      NoneBefore
        (13 ∷ 10 ∷ 13 ∷ 10 ∷ [])
        (header_block ++ (13 ∷ 10 ∷ 13 ∷ 10 ∷ [] ++ (data_bytes ++ rest)))
        (length header_block)
  pub first_end : NoneBefore (13 ∷ 10 ∷ marker) (data_bytes ++ rest) (length data_bytes)
  pub next : (rest ≡ []) ⊎ ((after : Bytes) × (rest ≡ 13 ∷ 10 ∷ marker ++ after))

pub found_cases {ℓ} : {A : Type ℓ} → (o : Option A) → (o ≡ none) ⊎ ((a : A) × (o ≡ some a))
found_cases none = inl refl
found_cases (some a) = inr (a, refl)

skip_crlf_split :
    (s : Bytes)
    → (line_break : Bytes) × Skipped line_break (skip_crlf s) × (s ≡ line_break ++ skip_crlf s)
skip_crlf_split s = elim (Bool-cases (equal crlf s)) [
  | inl e ↦ rw e (crlf, inr refl, equal_sound crlf s e)
  | inr e ↦ rw e ([], inl (refl, λ after q. starts after q e), refl)
]
  where
    starts : (after : Bytes) → s ≡ 13 ∷ 10 ∷ after → equal crlf s ≢ false
    starts after q f = cc (equal_self crlf after, ap (equal crlf) q)

drop-take : (n : ℕ) (s r : Bytes) → n ≤ length s → drop n (take n s ++ r) ≡ r
drop-take zero s r h = refl
drop-take (suc n) [] r h = absurd (omega (arith, h))
drop-take (suc n) (c ∷ s) r h = drop-take n s r (omega (arith, h))

found_drop :
    (tok s : Bytes) (n : ℕ) → find_first tok s ≡ some n → drop n s ≡ tok ++ drop (n + length tok) s
found_drop tok s n e =
    ap (drop n) (find_first_sound tok s n e)
    ∙ drop-take n s (tok ++ drop (n + length tok) s) (omega (arith, find_first_bound tok s n e))

-- What is found is the first.
none_before :
    (tok s t : Bytes) (n : ℕ)
    → find_first tok s ≡ some n
    → s ≡ t
    → NoneBefore tok t (length (take n s))
none_before tok s t n e w a b q =
    omega (arith, find_first_least tok s n a b e (w ∙ q), length-take n s)

-- The data ends before the first line break and marker, which begin the rest.
abbrev Ends : Bytes → Bytes → Bytes → Type 0
Ends marker data_bytes rest =
    NoneBefore (13 ∷ 10 ∷ marker) (data_bytes ++ rest) (length data_bytes)
    × ((rest ≡ []) ⊎ ((after : Bytes) × (rest ≡ 13 ∷ 10 ∷ marker ++ after)))

data_end :
    (marker s : Bytes) → Ends marker (take (data_size marker s) s) (drop (data_size marker s) s)
unfolding data_size
data_end marker s = elim (found_cases (find_first (13 ∷ 10 ∷ marker) s)) [
  | inl e ↦
      let size : data_size marker s ≡ length s = rw (e, data_size) refl in
      (
        (λ a b q. absurd (
            find_first_complete (13 ∷ 10 ∷ marker) a b (
              ap (find_first (13 ∷ 10 ∷ marker)) (sym q ∙ take-append-drop (data_size marker s) s)
              ∙ e))),
        inl (ap (λ n. drop n s) size ∙ drop-length s),
      )
  | inr (n, e) ↦
      let size : data_size marker s ≡ n = rw (e, data_size) refl in
      rw size (
        none_before (13 ∷ 10 ∷ marker) s (take n s ++ drop n s) n e (sym (take-append-drop n s)),
        inr (drop (n + length (13 ∷ 10 ∷ marker)) s, found_drop (13 ∷ 10 ∷ marker) s n e),
      )
]

-- The headers, the first blank line, the data and the rest are the whole text.
abbrev Splits : Bytes → Bytes → PartAt → Type 0
Splits marker s no_more = Unit
Splits marker s headers_open = Unit
Splits marker s (part header_block data_bytes rest) =
    (s ≡ header_block ++ (blank_line ++ (data_bytes ++ rest)))
    × NoneBefore blank_line (header_block ++ (blank_line ++ (data_bytes ++ rest)))
        (length header_block)
    × Ends marker data_bytes rest

headers_at-Splits : (marker s : Bytes) → Splits marker s (headers_at marker s)
unfolding headers_at
headers_at-Splits marker s = elim (found_cases (find_first blank_line s)) [
  | inl e ↦ rw (e, headers_at) tt
  | inr (n, e) ↦
      let body = drop (n + 4) s in
      let size = data_size marker body in
      let whole =
        find_first_sound blank_line s n e
        ∙ ap (λ x. take n s ++ (blank_line ++ x)) (sym (take-append-drop size body)) in
      rw (e, headers_at)
        (
          whole,
          none_before blank_line s (take n s ++ (blank_line ++ (take size body ++ drop size body)))
              n e whole,
          data_end marker body,
        )
]

-- The marker is not the last one, which has two dashes behind it.
not_last_lem :
    (marker s : Bytes) (n : ℕ)
    → find_first marker s ≡ some n
    → equal (marker ++ 45 ∷ 45 ∷ []) (drop n s) ≡ false
    → (after : Bytes) → s ≢ take n s ++ (marker ++ 45 ∷ 45 ∷ after)
not_last_lem marker s n e f after q =
    let found : drop n s ≡ (marker ++ 45 ∷ 45 ∷ []) ++ after =
      ap (drop n) q
      ∙ drop-take n s (marker ++ 45 ∷ 45 ∷ after) (omega (arith, find_first_bound marker s n e))
      ∙ sym (append_assoc marker (45 ∷ 45 ∷ []) after) in
    cc (f, ap (equal (marker ++ 45 ∷ 45 ∷ [])) found, equal_self (marker ++ 45 ∷ 45 ∷ []) after)

abbrev Cut : Bytes → Bytes → PartAt → Type 0
Cut marker s no_more = Unit
Cut marker s headers_open = Unit
Cut marker s (part header_block data_bytes rest) = IsPart marker s header_block data_bytes rest

cut_lem :
    (marker s line_break here : Bytes) (n : ℕ) (found : PartAt)
    → find_first marker s ≡ some n
    → equal (marker ++ 45 ∷ 45 ∷ []) (drop n s) ≡ false
    → Skipped line_break here
    → s ≡ take n s ++ (marker ++ (line_break ++ here))
    → Splits marker here found
    → Cut marker s found
cut_lem marker s line_break here n no_more f g b e h = tt
cut_lem marker s line_break here n headers_open f g b e h = tt
cut_lem marker s line_break here n (part header_block data_bytes rest) f g b e (h, k, (m, o)) =
    record {
      before = take n s;
      line_break = line_break;
      break_or_none = subst (Skipped line_break) h b;
      split = e ∙ ap (λ x. take n s ++ (marker ++ (line_break ++ x))) h;
      first_marker = none_before marker s s n f refl;
      not_last = not_last_lem marker s n f g;
      first_blank = k;
      first_end = m;
      next = o;
    }

part_at-Cut : (marker s : Bytes) → Cut marker s (part_at marker s)
unfolding part_at
part_at-Cut marker s = elim (found_cases (find_first marker s)) [
  | inl e ↦ rw (e, part_at) tt
  | inr (n, e) ↦ elim (Bool-cases (equal (marker ++ codes "--") (drop n s))) [
    | inl f ↦ rw (e, f, part_at) tt
    | inr f ↦
        let here = drop (length marker) (drop n s) in
        let (line_break, b, g) = skip_crlf_split here in
        let whole =
          find_first_sound marker s n e
          ∙ ap (λ x. take n s ++ (marker ++ x)) (sym (drop-drop (length marker) n s) ∙ g) in
        rw (e, f, part_at)
          (cut_lem marker s line_break (skip_crlf here) n (headers_at marker (skip_crlf here)) e f b
            whole (headers_at-Splits marker (skip_crlf here)))
  ]
]

-- A part that is found is the next part of the body as it stands. It begins with the first marker of the
-- body, which has no two dashes behind it, and with the line break behind that, if there is one; the
-- headers go up to the first blank line (CR LF CR LF), and the data from there up to the first line
-- break (CR LF) with the marker behind it, where the rest begins. Without such a line break the data goes
-- up to the end of the body, and nothing is left.
pub part_at_sound :
    (marker s header_block data_bytes rest : Bytes)
    → part_at marker s ≡ part header_block data_bytes rest
    → IsPart marker s header_block data_bytes rest
part_at_sound marker s header_block data_bytes rest h =
    subst (Cut marker s) h (part_at-Cut marker s)
