-- ===== src/Directory/Maker.antt =====
-- `create_directory_tree` of j2_library/src/directory/directory_maker.cpp, on a POSIX system, with the
-- state of the file system passed on. Its calls set error codes and do not throw.
use jaytwo_library.Prelude.{
  true, false, not, ◌&&◌, List, [], ◌∷◌, ◌++◌, Option, none, some, Bytes, is_empty, if◌then◌else◌,
}
use jaytwo_library.Directory.{
  FilePath, FileType, Errc, CreatePathCode, created_code, already_exists, invalid_path,
  not_directory, symlink_blocked, no_such_parent, unknown_error, Message, msg_none,
  msg_invalid_path, msg_already_exists, msg_already_exists_error, msg_symlink_blocked,
  msg_created_ok, msg_nothing_new, msg_not_directory, msg_no_parent, msg_state_fail,
  msg_create_fail, CreateDirOptions, CreateDirResult, FileOps, path_empty, join, parent_path,
  is_directory, is_symlink, type_exists, is_missing, is_there, map_errc,
}

-- The result before anything is done.
abbrev pub new_result : FilePath → CreateDirResult
new_result target = record {
  code = unknown_error;
  ec = none;
  message = msg_none;
  requested = target;
  created = [];
  success = false;
}

-- An error sets the code, the message and, where there is one, the error code.
abbrev pub refused : CreateDirResult → CreatePathCode → Message → Option Errc → CreateDirResult
refused out code message ec = record out { code = code; ec = ec; message = message }

module _ {ℓ} {S : Type ℓ} (ops : FileOps S) (opt : CreateDirOptions) where
  abbrev pub safe_status : FilePath → S → FileType × Option Errc
  safe_status p s = ops.status opt.follow_symlinks p s

  abbrev pub try_set_perms : FilePath → S → S
  try_set_perms p s =
      if not opt.set_permissions then s else ops.permissions p opt.mode opt.perms_mask s

  -- The directory is there already.
  abbrev pub existing : CreateDirResult → Message → CreateDirResult
  existing out message = record out {
    code = already_exists;
    message = (if opt.succeed_if_exists then message else msg_already_exists_error);
    success = opt.succeed_if_exists;
  }

  -- What is at a path but is no directory.
  abbrev pub blocked : CreateDirResult → FilePath → FileType → CreateDirResult
  blocked out p st =
      if is_symlink st && not opt.follow_symlinks
      then refused out symlink_blocked msg_symlink_blocked none
      else refused out not_directory (msg_not_directory p) none

  -- The target's own state; `none` is that it is missing.
  unfoldable pub check_target : FilePath → S → Option CreateDirResult
  check_target target s =
      let (st, ec) = safe_status target s in
      elim ec [
        | none ↦
            if is_directory st
            then some (existing (new_result target) msg_already_exists)
            else some (blocked (new_result target) target st)
        | some e ↦
            if is_missing e
            then none
            else some (refused (new_result target) (map_errc e) (msg_state_fail target e) (some e))
      ]

  -- When `create_directory` made none; `none` is that the directory is there after all.
  unfoldable pub not_made : CreateDirResult → FilePath → Option Errc → S → Option CreateDirResult
  not_made out p none s =
      if is_directory (safe_status p s).0
      then none
      else some (refused out not_directory (msg_not_directory p) none)
  not_made out p (some e) s =
      if is_there e
      then (if is_directory (safe_status p s).0
          then none
          else some (refused out not_directory (msg_not_directory p) (some e)))
      else some (refused out (map_errc e) (msg_create_fail p e) (some e))

  abbrev pub made_all : CreateDirResult → CreateDirResult
  made_all out = record out { code = created_code; message = msg_created_ok; success = true }

  -- `make_parents` is off: the target alone.
  unfoldable pub create_single : FilePath → S → CreateDirResult × S
  unfolding not_made
  create_single target s =
      let out = new_result target in
      let parent = parent_path target in
      let (there, pec) = ops.exists parent s in
      let ((made, mec), s') = ops.create_directory target s in
      if not (path_empty parent) && not there
      then (refused out no_such_parent (msg_no_parent parent) pec, s)
      else if made
      then (made_all (record out { created = target ∷ [] }), try_set_perms target s')
      else elim (not_made out target mec s') [
        | none ↦ (existing out msg_already_exists, s')
        | some stopped ↦ (stopped, s')
      ]

  abbrev pub finish : CreateDirResult → CreateDirResult
  finish out = if is_empty out.created then existing out msg_nothing_new else made_all out

  -- What is at one of the paths on the way; `none` is that it is missing.
  unfoldable pub check_part : CreateDirResult → FilePath → S → Option (Option CreateDirResult)
  check_part out accum s =
      let (st, ec) = safe_status accum s in
      elim ec [
        | none ↦
            if type_exists st
            then some (if is_directory st then none else some (blocked out accum st))
            else none
        | some e ↦
            if is_missing e
            then none
            else some (some (refused out (map_errc e) (msg_state_fail accum e) (some e)))
      ]

  -- The loop over the parts behind `accum`.
  unfoldable pub create_parts : List Bytes → FilePath → CreateDirResult → S → CreateDirResult × S
  unfolding not_made check_part
  create_parts [] accum out s = (finish out, s)
  create_parts (part ∷ parts) accum out s =
      let here = join accum part in
      let ((made, mec), s') = ops.create_directory here s in
      let made_on =
        create_parts parts here (record out { created = out.created ++ here ∷ [] })
          (try_set_perms here s') in
      let there_on = create_parts parts here out s' in
      let going_on = create_parts parts here out s in
      elim (check_part out here s) [
        | some none ↦ going_on
        | some (some stopped) ↦ (stopped, s)
        | none ↦
            if made
            then made_on
            else elim (not_made out here mec s') [ none ↦ there_on | some stopped ↦ (stopped, s') ]
      ]

  unfoldable pub create_directory_tree : FilePath → S → CreateDirResult × S
  unfolding check_target create_single create_parts
  create_directory_tree target s =
      if path_empty target
      then (refused (new_result target) invalid_path msg_invalid_path none, s)
      else elim (check_target target s) [
        | some out ↦ (out, s)
        | none ↦
            if not opt.make_parents
            then create_single target s
            else create_parts target.parts (record { rooted = target.rooted; parts = [] })
                (new_result target) s
      ]
