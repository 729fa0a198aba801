-- ===== src/Multipart/Total.antt =====
-- The loop over the parts ends: its fuel is enough for every body.
use jaytwo_library.Prelude.{
  ℕ, ◌<◌, zero, suc, Bool, true, false, List, [], ◌∷◌, ◌++◌, Option, none, some, Bytes, codes,
  length, length-append, if◌then◌else◌, ◌==◌, ◌≡◌, ◌≢◌, ◌⊎◌, refl, ap, inl, inr, arith,
}
use jaytwo_library.Multipart.{extract_boundary_from_headers}
use jaytwo_library.Multipart.Parts.{
  PartAt, no_more, headers_open, part, part_at, blank_line, Outcome, saved, transfer_failed,
  boundary_missing, nothing_found, out_of_fuel, PartStore, save_part, final_path_of, save_parts,
  download_multipart,
}
use jaytwo_library.Multipart.Sound.{IsPart, found_cases, part_at_sound}

abbrev is_fuel : Outcome → Bool
is_fuel out_of_fuel = true
is_fuel outcome = false

part_cases :
    (p : PartAt)
    → (p ≡ no_more)
      ⊎ ((p ≡ headers_open) ⊎ ((h : Bytes) × (d : Bytes) × (rest : Bytes) × (p ≡ part h d rest)))
part_cases no_more = inl refl
part_cases headers_open = inr (inl refl)
part_cases (part h d rest) = inr (inr (h, d, rest, refl))

rest_shorter :
    (marker s header_block data_bytes rest : Bytes)
    → IsPart marker s header_block data_bytes rest
    → length rest < length s
rest_shorter marker s header_block data_bytes rest p =
    let tail = blank_line ++ (data_bytes ++ rest) in
    let whole = ap length p.split in
    omega (
      arith,
      whole,
      length-append p.before (marker ++ (p.line_break ++ (header_block ++ tail))),
      length-append marker (p.line_break ++ (header_block ++ tail)),
      length-append p.line_break (header_block ++ tail),
      length-append header_block tail,
      length-append data_bytes rest,
    )

module _ {ℓ} {S : Type ℓ} (store : PartStore S) (delete_partial_on_fail : Bool)
    (output_dir : Bytes) where
  fault_lem :
      (final_path data_bytes : Bytes) (s : S) (outcome : Outcome)
      → (save_part store delete_partial_on_fail output_dir final_path data_bytes s).0 ≡ some outcome
      → is_fuel outcome ≡ false
  unfolding save_part
  fault_lem final_path data_bytes s outcome h = ground (arith, h)

  nothing_or_saved : (b : Bool) → is_fuel (if b then nothing_found else saved) ≡ false
  nothing_or_saved true = refl
  nothing_or_saved false = refl

  save_parts_lem :
      (fuel : ℕ) (marker : Bytes) (part_index : ℕ) (saved_files : List Bytes) (body : Bytes) (s : S)
      → length body < fuel
      → is_fuel
          (save_parts store delete_partial_on_fail output_dir fuel marker part_index saved_files
            body s).0.0
        ≡ false
  unfolding save_parts
  save_parts_lem zero marker part_index saved_files body s lt = absurd (omega (arith, lt))
  save_parts_lem (suc fuel) marker part_index saved_files body s lt =
      elim (part_cases (part_at marker body)) [
        | inl e ↦ rw (e, save_parts) (nothing_or_saved (part_index == 0))
        | inr (inl e) ↦ rw (e, save_parts) refl
        | inr (inr (header_block, data_bytes, rest, e)) ↦
            let final_path =
              final_path_of store delete_partial_on_fail output_dir part_index header_block in
            let shorter =
              rest_shorter marker body header_block data_bytes rest
                (part_at_sound marker body header_block data_bytes rest e) in
            let step = save_part store delete_partial_on_fail output_dir final_path data_bytes s in
            elim (found_cases step.0) [
              | inl f ↦
                  rw (e, f, save_parts)
                    (save_parts_lem fuel marker (suc part_index) (saved_files ++ final_path ∷ [])
                      rest step.1 (omega (arith, lt, shorter)))
              | inr (outcome, f) ↦
                  rw (e, f, save_parts) (fault_lem final_path data_bytes s outcome f)
            ]
      ]

  not_fuel : (outcome : Outcome) → is_fuel outcome ≡ false → outcome ≢ out_of_fuel
  not_fuel outcome h e = let lit = ap is_fuel e in ground (arith, h, lit)

  -- Whatever the transfer gives and whether the calls on files succeed, `download_multipart` ends with
  -- an outcome of the source: the fuel of its loop is never used up.
  pub download_multipart_total :
      (transfer : Option (Bytes × Bytes)) (saved_files : List Bytes) (s : S)
      → (download_multipart store delete_partial_on_fail output_dir transfer saved_files s).0.0
        ≢ out_of_fuel
  unfolding download_multipart
  download_multipart_total none saved_files s = not_fuel transfer_failed refl
  download_multipart_total (some (headers, body)) saved_files s =
      elim (found_cases (extract_boundary_from_headers headers)) [
        | inl e ↦ rw (e, download_multipart) (not_fuel boundary_missing refl)
        | inr (boundary, e) ↦
            rw (e, download_multipart)
              (not_fuel _ (
                save_parts_lem (suc (length body)) (codes "--" ++ boundary) 0 saved_files body s
                  (omega arith)))
      ]
