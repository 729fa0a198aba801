-- ===== src/Multipart/Tests.antt =====
-- The multipart downloader on a small body, with files that are a list.
use jaytwo_library.Prelude.{true, List, [], ◌∷◌, ◌++◌, some, Bytes, codes, ◌≡◌, ◌≢◌, refl}
use jaytwo_library.Text.{is_space}
use jaytwo_library.Multipart.Parts.{
  part, part_at, crlf, blank_line, saved, out_of_fuel, PartStore, download_multipart,
}
use jaytwo_library.Multipart.Sound.{IsPart, part_at_sound}
use jaytwo_library.Multipart.Total.{download_multipart_total}

abbrev Files : Type 0
Files = List (Bytes × Bytes)

abbrev list_store : PartStore Files
list_store = record {
  open_temp = λ path files. (true, files);
  write_temp = λ path data_bytes files. (true, (path, data_bytes) ∷ files);
  rename_file = λ from to files. (true, files);
  remove_file = λ path files. files;
  join_path = λ dir name. dir ++ (codes "/" ++ name);
  index_text = λ n. codes "0";
}

abbrev part_headers : Bytes
part_headers = codes "Content-Disposition: form-data; filename=\"a.txt\""

abbrev body : Bytes
body =
    codes "--B"
    ++ (crlf ++ (part_headers ++ (blank_line ++ (codes "hello" ++ (crlf ++ codes "--B--")))))

abbrev headers : Bytes
headers = codes "Content-Type: multipart/mixed; boundary=B" ++ crlf

one_file :
    download_multipart list_store true (codes "out") (some (headers, body)) [] []
    ≡ ((saved, codes "out/a.txt" ∷ []), (codes "out/a.txt.part", codes "hello") ∷ [])
unfolding download_multipart is_space
one_file = refl

first_part : part_at (codes "--B") body ≡ part part_headers (codes "hello") (crlf ++ codes "--B--")
unfolding part_at
first_part = refl

part_at_sound_example :
    IsPart (codes "--B") body part_headers (codes "hello") (crlf ++ codes "--B--")
part_at_sound_example =
    part_at_sound (codes "--B") body part_headers (codes "hello") (crlf ++ codes "--B--") first_part

download_multipart_total_example :
    (download_multipart list_store true (codes "out") (some (headers, body)) [] []).0.0
    ≢ out_of_fuel
download_multipart_total_example =
    download_multipart_total list_store true (codes "out") (some (headers, body)) [] []
