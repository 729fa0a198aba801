-- ===== src/Multipart/Parts.antt =====
-- The loop of `download_multipart` over the body, and what it does with a part. A `std::ofstream` is
-- opened and written at one path; the state of the files is passed on.
use jaytwo_library.Prelude.{
  ℕ, ◌+◌, zero, suc, Bool, not, List, [], ◌∷◌, ◌++◌, Option, none, some, Bytes, codes, length, drop,
  take, if◌then◌else◌, ◌==◌,
}
use jaytwo_library.Text.{equal, find_first}
use jaytwo_library.Multipart.{
  extract_boundary_from_headers, extract_filename_from_content_disposition,
}

abbrev pub crlf : Bytes
crlf = 13 ∷ 10 ∷ []

abbrev pub blank_line : Bytes
blank_line = 13 ∷ 10 ∷ 13 ∷ 10 ∷ []

-- What the next round finds: no further part, headers without an end, or a part with its headers, its
-- data and the text from the end of the data on.
pub data PartAt : Type 0 where
  no_more headers_open : PartAt
  part : Bytes → Bytes → Bytes → PartAt

abbrev pub skip_crlf : Bytes → Bytes
skip_crlf s = if equal crlf s then drop 2 s else s

unfoldable pub data_size : Bytes → Bytes → ℕ
unfolding find_first
data_size marker s = elim (find_first (crlf ++ marker) s) [ some next ↦ next | none ↦ length s ]

unfoldable pub headers_at : Bytes → Bytes → PartAt
unfolding find_first data_size
headers_at marker s = elim (find_first blank_line s) [
  | none ↦ headers_open
  | some header_end ↦
      let body = drop (header_end + 4) s in
      part (take header_end s) (take (data_size marker body) body)
        (drop (data_size marker body) body)
]

unfoldable pub part_at : Bytes → Bytes → PartAt
unfolding find_first equal headers_at
part_at marker s = elim (find_first marker s) [
  | none ↦ no_more
  | some bpos ↦
      if equal (marker ++ codes "--") (drop bpos s)
      then no_more
      else headers_at marker (skip_crlf (drop (length marker) (drop bpos s)))
]

-- Where it ends: all saved, or an error message, and `out_of_fuel`, which has no counterpart.
pub data Outcome : Type 0 where
  saved transfer_failed boundary_missing headers_unfinished nothing_found out_of_fuel : Outcome
  temp_not_created temp_not_written not_renamed : Bytes → Outcome

-- The calls on files, with whether they succeed; `join_path` is `operator/`, and `to_string` that of
-- the index.
pub record PartStore {ℓ} (S : Type ℓ) : Type ℓ where
  pub open_temp : Bytes → S → Bool × S
  pub write_temp : Bytes → Bytes → S → Bool × S
  pub rename_file : Bytes → Bytes → S → Bool × S
  pub remove_file : Bytes → S → S
  pub join_path : Bytes → Bytes → Bytes
  pub index_text : ℕ → Bytes

abbrev pub part_name : (ℕ → Bytes) → ℕ → Option Bytes → Bytes
part_name index_text part_index none = codes "part_" ++ (index_text part_index ++ codes ".bin")
part_name index_text part_index (some filename) = filename

module _ {ℓ} {S : Type ℓ} (store : PartStore S) (delete_partial_on_fail : Bool)
    (output_dir : Bytes) where
  abbrev pub temp_of : Bytes → Bytes
  temp_of final_path = final_path ++ codes ".part"

  abbrev pub clean_up : Bytes → S → S
  clean_up final_path s =
      if delete_partial_on_fail then store.remove_file (temp_of final_path) s else s

  -- The data into the temporary file, and the temporary file under its name; `none` is success.
  unfoldable pub save_part : Bytes → Bytes → S → Option Outcome × S
  save_part final_path data_bytes s =
      let (opened, s1) = store.open_temp (temp_of final_path) s in
      let (written, s2) = store.write_temp (temp_of final_path) data_bytes s1 in
      let (renamed, s3) = store.rename_file (temp_of final_path) final_path s2 in
      if not opened
      then (some (temp_not_created (temp_of final_path)), clean_up final_path s1)
      else if not written
      then (some (temp_not_written (temp_of final_path)), clean_up final_path s2)
      else if not renamed
      then (some (not_renamed final_path), clean_up final_path s3)
      else (none, s3)

  abbrev pub final_path_of : ℕ → Bytes → Bytes
  final_path_of part_index header_block = store.join_path output_dir (
      part_name store.index_text part_index
        (extract_filename_from_content_disposition header_block))

  -- The loop, with the rounds left: each takes a marker off the body.
  unfoldable pub save_parts : ℕ → Bytes → ℕ → List Bytes → Bytes → S → (Outcome × List Bytes) × S
  unfolding part_at save_part extract_filename_from_content_disposition
  save_parts zero marker part_index saved_files body s = ((out_of_fuel, saved_files), s)
  save_parts (suc fuel) marker part_index saved_files body s = elim (part_at marker body) [
    | no_more ↦ (((if part_index == 0 then nothing_found else saved), saved_files), s)
    | headers_open ↦ ((headers_unfinished, saved_files), s)
    | part header_block data_bytes rest ↦
        let final_path = final_path_of part_index header_block in
        let (fault, s1) = save_part final_path data_bytes s in
        elim fault [
          | none ↦ save_parts fuel marker (suc part_index) (saved_files ++ final_path ∷ []) rest s1
          | some outcome ↦ ((outcome, saved_files), s1)
        ]
  ]

  -- `download_multipart`, with what the transfer gave: the headers and the body.
  unfoldable pub download_multipart :
      Option (Bytes × Bytes) → List Bytes → S → (Outcome × List Bytes) × S
  unfolding save_parts extract_boundary_from_headers
  download_multipart none saved_files s = ((transfer_failed, saved_files), s)
  download_multipart (some (headers, body)) saved_files s =
      elim (extract_boundary_from_headers headers) [
        | none ↦ ((boundary_missing, saved_files), s)
        | some boundary ↦
            save_parts (suc (length body)) (codes "--" ++ boundary) 0 saved_files body s
      ]
