-- ===== src/Directory/Tests.antt =====
-- The directory maker on a file system that is a set of directories.
use jaytwo_library.Prelude.{
  All, Bool, Bool-cases, true, false, not, ◌&&◌, ◌||◌, List, [], ◌∷◌, Option, none, some, Bytes,
  codes, is_empty, ◌≡◌, refl, ap, inl, inr, if◌then◌else◌, arith,
}
use jaytwo_library.Text.{str_eq}
use jaytwo_library.Text.Find.{str_eq_iff}
use jaytwo_library.Directory.{
  FilePath, FileType, directory, not_found, Errc, no_such_file_or_directory, exact,
  CreateDirOptions, FileOps, parent_path,
}
use jaytwo_library.Directory.Maker.{create_directory_tree}
use jaytwo_library.Directory.Laws.{IsDir, IsLawful}
use jaytwo_library.Directory.Success.{create_directory_tree_lem}
use jaytwo_library.Directory.Again.{WasThere, create_directory_tree_again}

abbrev same_parts : List Bytes → List Bytes → Bool
same_parts [] [] = true
same_parts [] (b ∷ q) = false
same_parts (a ∷ p) [] = false
same_parts (a ∷ p) (b ∷ q) = str_eq a b && same_parts p q

abbrev same_flag : Bool → Bool → Bool
same_flag true b = b
same_flag false b = not b

abbrev same_path : FilePath → FilePath → Bool
same_path p q = same_flag p.rooted q.rooted && same_parts p.parts q.parts

abbrev Tree : Type 0
Tree = FilePath → Bool

abbrev type_in : Tree → FilePath → FileType × Option Errc
type_in s p = if s p then (directory, none) else (not_found, some no_such_file_or_directory)

abbrev insert : FilePath → Tree → Tree
insert p s = λ q. same_path p q || s q

abbrev make : FilePath → Tree → (Bool × Option Errc) × Tree
make p s =
    if s p
    then ((false, none), s)
    else if s (parent_path p)
    then ((true, none), insert p s)
    else ((false, some no_such_file_or_directory), s)

abbrev tree_ops : FileOps Tree
tree_ops = record {
  status = λ follow p s. type_in s p;
  exists = λ p s. (s p, none);
  create_directory = make;
  permissions = λ p mode mask s. s;
}

abbrev options : CreateDirOptions
options = record {
  make_parents = true;
  succeed_if_exists = true;
  follow_symlinks = false;
  set_permissions = true;
  perms_mask = 0x1ED;
  mode = exact;
}

same_parts_refl : (p : List Bytes) → same_parts p p ≡ true
same_parts_refl [] = refl
same_parts_refl (a ∷ p) = rw ((str_eq_iff a a).1 refl) (same_parts_refl p)

same_path_refl : (p : FilePath) → same_path p p ≡ true
same_path_refl p = let e = same_parts_refl p.parts in ground (arith, e)

in_tree : (s : Tree) (p : FilePath) → (type_in s p).0 ≡ directory → s p ≡ true
in_tree s p h = ground (arith, h)

made_there : (s : Tree) (p : FilePath) → (make p s).0.0 ≡ true → (make p s).1 p ≡ true
made_there s p h =
    let same = same_path_refl p in
    elim (Bool-cases (s p)) [
      | inl e ↦ rw e e
      | inr e ↦ elim (Bool-cases (s (parent_path p))) [
        | inl f ↦ rw (e, f, same) refl
        | inr f ↦ absurd (ground (arith, h, e, f))
      ]
    ]

kept_there : (s : Tree) (p q : FilePath) → s q ≡ true → (make p s).1 q ≡ true
kept_there s p q h = elim (Bool-cases (s p)) [
  | inl e ↦ rw e h
  | inr e ↦ elim (Bool-cases (s (parent_path p))) [
    | inl f ↦ rw (e, f) (ground (arith, h))
    | inr f ↦ rw (e, f) h
  ]
]

tree-IsLawful : IsLawful tree_ops options
tree-IsLawful = record {
  makes = λ p s h. rw (made_there s p h) refl;
  keeps = λ p q s h. rw (kept_there s p q (in_tree s q (ap (λ x. x.0) h))) refl;
  reaches = λ p q s h. h;
  typed = λ p s h. rw (in_tree s p h) refl;
}

-- The root alone.
abbrev start : Tree
start p = p.rooted && is_empty p.parts

abbrev target : FilePath
target = record { rooted = true; parts = codes "data" ∷ codes "output" ∷ [] }

first_succeeds : (create_directory_tree tree_ops options target start).0.success ≡ true
unfolding create_directory_tree str_eq
first_succeeds = refl

abbrev root_path : FilePath
root_path = record { rooted = true; parts = [] }

create_directory_tree_lem_example :
    IsDir tree_ops options (create_directory_tree tree_ops options target start).1 target
    × All
        (IsDir tree_ops options (create_directory_tree tree_ops options target start).1)
        (create_directory_tree tree_ops options target start).0.created
    × IsDir tree_ops options (create_directory_tree tree_ops options target start).1 root_path
create_directory_tree_lem_example =
    create_directory_tree_lem tree_ops options tree-IsLawful target root_path start refl refl
      first_succeeds

-- The second call refuses what is there.
abbrev strict_options : CreateDirOptions
strict_options = record options { succeed_if_exists = false; make_parents = false }

create_directory_tree_again_example :
    ((create_directory_tree tree_ops strict_options target
        (create_directory_tree tree_ops options target start).1).1
      ≡ (create_directory_tree tree_ops options target start).1)
    × WasThere strict_options target
        (create_directory_tree tree_ops strict_options target
          (create_directory_tree tree_ops options target start).1).0
create_directory_tree_again_example =
    create_directory_tree_again tree_ops options tree-IsLawful strict_options target start refl refl
      first_succeeds
