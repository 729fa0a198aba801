-- ===== src/Directory/Again.antt =====
-- A second call of `create_directory_tree`.
use jaytwo_library.Prelude.{
  false, true, [], none, is_empty, if◌then◌else◌, ◌≡◌, refl, ap, arith, ◌∙◌,
}
use jaytwo_library.Directory.{
  FilePath, directory, CreateDirOptions, CreateDirResult, FileOps, path_empty, already_exists,
  msg_already_exists, msg_already_exists_error,
}
use jaytwo_library.Directory.Maker.{
  new_result, safe_status, existing, check_target, create_directory_tree,
}
use jaytwo_library.Directory.Laws.{IsDir, IsLawful}
use jaytwo_library.Directory.Success.{create_directory_tree-IsDone}

-- What a call reports of a directory that was there before it: it has made nothing and met no error, and
-- it is a success just when the options say so.
pub record WasThere (opt : CreateDirOptions) (target : FilePath) (out : CreateDirResult)
    : Type 0 where
  pub code : out.code ≡ already_exists
  pub created : out.created ≡ []
  pub ec : out.ec ≡ none
  pub requested : out.requested ≡ target
  pub success : out.success ≡ opt.succeed_if_exists
  pub message :
      out.message ≡ (if opt.succeed_if_exists then msg_already_exists else msg_already_exists_error)

existing_lem {ℓ} :
    {S : Type ℓ} (ops : FileOps S) (opt : CreateDirOptions) (target : FilePath) (s : S)
    → path_empty target ≡ false
    → IsDir ops opt s target
    → create_directory_tree ops opt target s
      ≡ (existing ops opt (new_result target) msg_already_exists, s)
unfolding create_directory_tree check_target
existing_lem ops opt target s e d =
    let type : (safe_status ops opt target s).0 ≡ directory = ap (λ x. x.0) d in
    let no_error : (safe_status ops opt target s).1 ≡ none = ap (λ x. x.1) d in
    rw (e, no_error, type, create_directory_tree) refl

module _ {ℓ} {S : Type ℓ} (ops : FileOps S) (opt : CreateDirOptions)
    (lawful : IsLawful ops opt) where
  -- After a success, a second call finds the directory. It may have other options than the first, as long
  -- as it treats symbolic links alike: it changes nothing in the file system, permissions included,
  -- creates nothing and meets no error, its code is `already_exists`, and it succeeds just when its own
  -- options take an existing directory for a success.
  pub create_directory_tree_again :
      (again : CreateDirOptions) (target : FilePath) (s : S)
      → is_empty target.parts ≡ false
      → again.follow_symlinks ≡ opt.follow_symlinks
      → (create_directory_tree ops opt target s).0.success ≡ true
      → let s' = (create_directory_tree ops opt target s).1 in
        ((create_directory_tree ops again target s').1 ≡ s')
        × WasThere again target (create_directory_tree ops again target s').0
  create_directory_tree_again again target s h links e =
      let s' = (create_directory_tree ops opt target s).1 in
      let there : IsDir ops again s' target =
        ap (λ b. ops.status b target s') links
        ∙ (create_directory_tree-IsDone ops opt lawful target s h).reached e in
      let same = existing_lem ops again target s' (ground (arith, h)) there in
      (
        ap (λ x. x.1) same,
        record {
          code = ap (λ x. x.0.code) same;
          created = ap (λ x. x.0.created) same;
          ec = ap (λ x. x.0.ec) same;
          requested = ap (λ x. x.0.requested) same;
          success = ap (λ x. x.0.success) same;
          message = ap (λ x. x.0.message) same;
        },
      )
