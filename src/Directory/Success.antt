-- ===== src/Directory/Success.antt =====
-- What stands in the file system after `create_directory_tree`.
use jaytwo_library.Prelude.{
  Bool-cases, true, false, not, ◌&&◌, List, [], ◌∷◌, ◌++◌, none, some, Bytes, is_empty, ◌≡◌, refl,
  sym, subst, inl, inr, All, All-append, arith,
}
use jaytwo_library.Directory.{
  FilePath, CreateDirOptions, CreateDirResult, FileOps, join, is_directory, path_empty, parent_path,
}
use jaytwo_library.Directory.Maker.{
  new_result, safe_status, try_set_perms, check_target, not_made, create_single, check_part,
  create_parts, create_directory_tree,
}
use jaytwo_library.Directory.Laws.{
  IsDir, IsLawful, directory_type, check_part_on, check_part_stop, not_made_on, not_made_stop,
}
use jaytwo_library.Directory.Done.{
  extend, found_cases, All-map, IsDone, after, refusal-IsDone, either_way, finish-created,
  extend_nil, extend-join,
}

module _ {ℓ} {S : Type ℓ} (ops : FileOps S) (opt : CreateDirOptions)
    (lawful : IsLawful ops opt) where
  create_parts-IsDone :
      (parts : List Bytes) (accum : FilePath) (out : CreateDirResult) (s : S)
      → (is_empty parts ≡ true → IsDir ops opt s accum)
      → out.success ≡ false
      → All (λ q. IsDir ops opt s q) out.created
      → IsDone ops opt (extend accum parts) s (create_parts ops opt parts accum out s)
  unfolding create_parts
  create_parts-IsDone [] accum out s there f h = record {
    reached = λ e. subst (IsDir ops opt s) (sym (extend_nil ops opt accum)) (there refl);
    made = subst (All (λ q. IsDir ops opt s q)) (sym (finish-created ops opt out)) h;
    kept = λ q k. k;
  }
  create_parts-IsDone (part ∷ parts) accum out s there f h =
      let here = join accum part in
      let s' = (ops.create_directory here s).1 in
      let s'' = try_set_perms ops opt here s' in
      let keep : (q : FilePath) → IsDir ops opt s q → IsDir ops opt s' q =
        λ q k. lawful.keeps here q s k in
      let keep' : (q : FilePath) → IsDir ops opt s q → IsDir ops opt s'' q =
        λ q k. lawful.reaches here q s' (keep q k) in
      subst (λ x. IsDone ops opt x s (create_parts ops opt (part ∷ parts) accum out s))
        (extend-join ops opt accum part parts)
        (elim (found_cases (check_part ops opt out here s)) [
          | inr (none, e) ↦
              rw (e, create_parts)
                (create_parts-IsDone parts here out s
                  (λ z. lawful.typed here s (directory_type _ (check_part_on ops opt out here s e)))
                  f h)
          | inr (some stopped, e) ↦
              rw (e, create_parts)
                (refusal-IsDone ops opt (extend here parts) s out stopped f h
                  (check_part_stop ops opt out stopped here s e))
          | inl e ↦ elim (Bool-cases (ops.create_directory here s).0.0) [
            | inl m ↦
                let there' = lawful.reaches here here s' (lawful.makes here s m) in
                rw (e, m, create_parts)
                  (after ops opt (extend here parts) s s'' _ keep' (
                    create_parts-IsDone parts here
                      (record out { created = out.created ++ here ∷ [] }) s'' (λ z. there') f
                      (All-append (λ q. IsDir ops opt s'' q) out.created (here ∷ [])
                        (All-map out.created keep' h) (there', tt))))
            | inr m ↦
                elim (found_cases
                  (not_made ops opt out here (ops.create_directory here s).0.1 s')) [
                    | inl g ↦
                        rw (e, m, g, create_parts)
                          (after ops opt (extend here parts) s s' _ keep (
                            create_parts-IsDone parts here out s'
                              (λ z.
                                lawful.typed here s'
                                  (directory_type _ (not_made_on ops opt out here _ s' g)))
                              f (All-map out.created keep h)))
                    | inr (stopped, g) ↦
                        rw (e, m, g, create_parts)
                          (after ops opt (extend here parts) s s' _ keep (
                            refusal-IsDone ops opt (extend here parts) s' out stopped f
                              (All-map out.created keep h)
                              (not_made_stop ops opt out stopped here _ s' g)))
                  ]
          ]
        ])

  check_target-IsDone :
      (target : FilePath) (s : S) (out : CreateDirResult)
      → check_target ops opt target s ≡ some out
      → IsDone ops opt target s (out, s)
  unfolding check_target
  check_target-IsDone target s out h =
      let nothing : out.created ≡ [] = ground (arith, h) in
      let is_dir : out.success ≡ true → is_directory (safe_status ops opt target s).0 ≡ true =
        λ e. ground (arith, h, e) in
      record {
        reached = λ e. lawful.typed target s (directory_type _ (is_dir e));
        made = subst (All (λ q. IsDir ops opt s q)) (sym nothing) tt;
        kept = λ q k. k;
      }

  create_single-IsDone :
      (target : FilePath) (s : S) → IsDone ops opt target s (create_single ops opt target s)
  unfolding create_single
  create_single-IsDone target s =
      let parent = parent_path target in
      let out = new_result target in
      let s' = (ops.create_directory target s).1 in
      let keep : (q : FilePath) → IsDir ops opt s q → IsDir ops opt s' q =
        λ q k. lawful.keeps target q s k in
      elim (Bool-cases (not (path_empty parent) && not (ops.exists parent s).0)) [
        | inl e ↦
            rw (e, create_single)
              (refusal-IsDone ops opt target s out _ refl tt
                (record { no_success = refl; same_created = refl }))
        | inr e ↦ elim (Bool-cases (ops.create_directory target s).0.0) [
          | inl m ↦
              let there = lawful.reaches target target s' (lawful.makes target s m) in
              rw (e, m, create_single)
                (record {
                  reached = λ z. there;
                  made = (there, tt);
                  kept = λ q k. lawful.reaches target q s' (keep q k);
                })
          | inr m ↦
              elim (found_cases
                (not_made ops opt out target (ops.create_directory target s).0.1 s')) [
                  | inl g ↦
                      rw (e, m, g, create_single)
                        (record {
                          reached = λ z.
                              lawful.typed target s'
                                (directory_type _ (not_made_on ops opt out target _ s' g));
                          made = tt;
                          kept = keep;
                        })
                  | inr (stopped, g) ↦
                      rw (e, m, g, create_single)
                        (after ops opt target s s' _ keep (
                          refusal-IsDone ops opt target s' out stopped refl tt
                            (not_made_stop ops opt out stopped target _ s' g)))
                ]
        ]
      ]

  pub create_directory_tree-IsDone :
      (target : FilePath) (s : S)
      → is_empty target.parts ≡ false
      → IsDone ops opt target s (create_directory_tree ops opt target s)
  unfolding create_directory_tree
  create_directory_tree-IsDone target s h =
      let start : FilePath = record { rooted = target.rooted; parts = [] } in
      elim (Bool-cases (path_empty target)) [
        | inl e ↦ absurd (ground (arith, e, h))
        | inr e ↦ elim (found_cases (check_target ops opt target s)) [
          | inr (out, f) ↦ rw (e, f, create_directory_tree) (check_target-IsDone target s out f)
          | inl f ↦
              rw (e, f, create_directory_tree)
                (either_way ops opt target s (not opt.make_parents) _ _
                  (create_single-IsDone target s)
                  (create_parts-IsDone target.parts start (new_result target) s
                    (λ z. absurd (ground (arith, z, h))) refl tt))
        ]
      ]

  -- For a target with a name in it, under every option and in every branch: after ops opt a success, the target
  -- is a directory, so are the paths that the result lists as created, and what was a directory
  -- before still is one.
  pub create_directory_tree_lem :
      (target q : FilePath) (s : S)
      → is_empty target.parts ≡ false
      → IsDir ops opt s q
      → (create_directory_tree ops opt target s).0.success ≡ true
      → IsDir ops opt (create_directory_tree ops opt target s).1 target
        × All
            (IsDir ops opt (create_directory_tree ops opt target s).1)
            (create_directory_tree ops opt target s).0.created
        × IsDir ops opt (create_directory_tree ops opt target s).1 q
  create_directory_tree_lem target q s h k e =
      let done = create_directory_tree-IsDone target s h in
      (done.reached e, done.made, done.kept q k)
