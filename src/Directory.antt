-- ===== src/Directory.antt =====
-- `directory_maker` of j2_library/src/directory/directory_maker.cpp and its types in
-- j2_library/include/j2_library/directory/directory_maker.hpp. The functions of `std::filesystem` are
-- the record `FileOps` over a state of the file system, a parameter. A message is named by the function
-- that makes it.
pub mod Maker
pub mod Laws
pub mod Done
pub mod Success
pub mod Again
mod Tests
use jaytwo_library.Prelude.{
  ℕ, Bool, true, false, not, ◌&&◌, List, [], ◌∷◌, ◌++◌, Option, none, some, Bytes, codes, is_empty,
  if◌then◌else◌,
}

-- A `std::filesystem::path`: whether it has a root directory, and the names behind it.
pub record FilePath : Type 0 where
  pub rooted : Bool
  pub parts : List Bytes

pub data FileType : Type 0 where
  not_found regular directory symlink other_type : FileType

pub data Errc : Type 0 where
  permission_denied read_only_file_system file_exists not_a_directory : Errc
  no_such_file_or_directory filename_too_long no_space_on_device interrupted : Errc
  other_error : ℕ → Errc

pub data CreatePathCode : Type 0 where
  created_code already_exists invalid_path not_directory permission_refused symlink_blocked :
      CreatePathCode
  read_only name_too_long no_such_parent disk_full was_interrupted unknown_error : CreatePathCode

pub data PermMode : Type 0 where
  exact add_perms remove_perms : PermMode

pub data Message : Type 0 where
  msg_none msg_invalid_path msg_already_exists msg_already_exists_error msg_symlink_blocked :
      Message
  msg_created_ok msg_nothing_new : Message
  msg_not_directory msg_no_parent : FilePath → Message
  msg_state_fail msg_create_fail : FilePath → Errc → Message

pub record CreateDirOptions : Type 0 where
  pub make_parents : Bool
  pub succeed_if_exists : Bool
  pub follow_symlinks : Bool
  pub set_permissions : Bool
  pub perms_mask : ℕ
  pub mode : PermMode

pub record CreateDirResult : Type 0 where
  pub code : CreatePathCode
  pub ec : Option Errc
  pub message : Message
  pub requested : FilePath
  pub created : List FilePath
  pub success : Bool

-- `status` or `symlink_status`, `exists`, `create_directory` and `permissions`; where they set no
-- error code it is `none`.
pub record FileOps {ℓ} (S : Type ℓ) : Type ℓ where
  pub status : Bool → FilePath → S → FileType × Option Errc
  pub exists : FilePath → S → Bool × Option Errc
  pub create_directory : FilePath → S → (Bool × Option Errc) × S
  pub permissions : FilePath → PermMode → ℕ → S → S

-- `empty`, `operator/=` and `parent_path` of a path.
abbrev pub path_empty : FilePath → Bool
path_empty p = not p.rooted && is_empty p.parts

abbrev pub join : FilePath → Bytes → FilePath
join p part = record p { parts = p.parts ++ part ∷ [] }

abbrev pub but_last : List Bytes → List Bytes
but_last [] = []
but_last (a ∷ []) = []
but_last (a ∷ b ∷ rest) = a ∷ but_last (b ∷ rest)

abbrev pub parent_path : FilePath → FilePath
parent_path p = record p { parts = but_last p.parts }

abbrev pub is_directory : FileType → Bool
is_directory directory = true
is_directory type = false

abbrev pub is_symlink : FileType → Bool
is_symlink symlink = true
is_symlink type = false

abbrev pub type_exists : FileType → Bool
type_exists not_found = false
type_exists type = true

abbrev pub is_missing : Errc → Bool
is_missing no_such_file_or_directory = true
is_missing e = false

abbrev pub is_there : Errc → Bool
is_there file_exists = true
is_there e = false

abbrev pub map_errc : Errc → CreatePathCode
map_errc permission_denied = permission_refused
map_errc read_only_file_system = read_only
map_errc file_exists = already_exists
map_errc not_a_directory = not_directory
map_errc no_such_file_or_directory = no_such_parent
map_errc filename_too_long = name_too_long
map_errc no_space_on_device = disk_full
map_errc interrupted = was_interrupted
map_errc (other_error n) = unknown_error

unfoldable pub to_string : CreatePathCode → Bytes
to_string created_code = codes "Created"
to_string already_exists = codes "AlreadyExists"
to_string invalid_path = codes "InvalidPath"
to_string not_directory = codes "NotDirectory"
to_string permission_refused = codes "PermissionDenied"
to_string symlink_blocked = codes "SymlinkBlocked"
to_string read_only = codes "ReadOnlyFilesystem"
to_string name_too_long = codes "NameTooLong"
to_string no_such_parent = codes "NoSuchParent"
to_string disk_full = codes "DiskFull"
to_string was_interrupted = codes "Interrupted"
to_string unknown_error = codes "UnknownError"
