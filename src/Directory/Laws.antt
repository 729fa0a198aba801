-- ===== src/Directory/Laws.antt =====
-- What `directory_maker` relies on, and what its branches leave.
use jaytwo_library.Prelude.{
  Bool-cases, true, not, ◌&&◌, Option, none, some, ◌≡◌, refl, inl, inr, arith,
}
use jaytwo_library.Directory.{
  FilePath, FileType, not_found, regular, directory, symlink, other_type, Errc, CreateDirOptions,
  CreateDirResult, FileOps, is_directory, is_symlink,
}
use jaytwo_library.Directory.Maker.{safe_status, try_set_perms, blocked, not_made, check_part}

pub directory_type : (type : FileType) → is_directory type ≡ true → type ≡ directory
directory_type not_found h = cc
directory_type regular h = cc
directory_type directory h = refl
directory_type symlink h = cc
directory_type other_type h = cc

-- A refusal keeps what was made, and is no success.
pub record IsRefusal (out stopped : CreateDirResult) : Type 0 where
  pub no_success : stopped.success ≡ out.success
  pub same_created : stopped.created ≡ out.created

module _ {ℓ} {S : Type ℓ} (ops : FileOps S) (opt : CreateDirOptions) where
  -- The path leads to a directory, by the status function of the options.
  abbrev pub IsDir : S → FilePath → Type 0
  IsDir s p = safe_status ops opt p s ≡ (directory, none)

  -- A directory that is made is there, making one and setting permissions takes none away, and a
  -- status without a type has an error: as std::filesystem documents, for permissions with which
  -- the directories can still be reached.
  pub record IsLawful : Type ℓ where
    pub makes :
        (p : FilePath) (s : S)
        → (ops.create_directory p s).0.0 ≡ true
        → IsDir (ops.create_directory p s).1 p
    pub keeps : (p q : FilePath) (s : S) → IsDir s q → IsDir (ops.create_directory p s).1 q
    pub reaches : (p q : FilePath) (s : S) → IsDir s q → IsDir (try_set_perms ops opt p s) q
    pub typed : (p : FilePath) (s : S) → (safe_status ops opt p s).0 ≡ directory → IsDir s p

  pub blocked-IsRefusal :
      (out : CreateDirResult) (p : FilePath) (st : FileType)
      → IsRefusal out (blocked ops opt out p st)
  blocked-IsRefusal out p st = elim (Bool-cases (is_symlink st && not opt.follow_symlinks)) [
    | inl e ↦ rw e (record { no_success = refl; same_created = refl })
    | inr e ↦ rw e (record { no_success = refl; same_created = refl })
  ]

  pub check_part_on :
      (out : CreateDirResult) (p : FilePath) (s : S)
      → check_part ops opt out p s ≡ some none
      → is_directory (safe_status ops opt p s).0 ≡ true
  unfolding check_part
  check_part_on out p s h = ground (arith, h)

  pub check_part_stop :
      (out stopped : CreateDirResult) (p : FilePath) (s : S)
      → check_part ops opt out p s ≡ some (some stopped)
      → IsRefusal out stopped
  unfolding check_part
  check_part_stop out stopped p s h = record {
    no_success = ground (arith, h);
    same_created = ground (arith, h);
  }

  pub not_made_on :
      (out : CreateDirResult) (p : FilePath) (ec : Option Errc) (s : S)
      → not_made ops opt out p ec s ≡ none
      → is_directory (safe_status ops opt p s).0 ≡ true
  unfolding not_made
  not_made_on out p none s h = ground (arith, h)
  not_made_on out p (some e) s h = ground (arith, h)

  pub not_made_stop :
      (out stopped : CreateDirResult) (p : FilePath) (ec : Option Errc) (s : S)
      → not_made ops opt out p ec s ≡ some stopped
      → IsRefusal out stopped
  unfolding not_made
  not_made_stop out stopped p none s h = record {
    no_success = ground (arith, h);
    same_created = ground (arith, h);
  }
  not_made_stop out stopped p (some e) s h = record {
    no_success = ground (arith, h);
    same_created = ground (arith, h);
  }
