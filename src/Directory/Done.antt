-- ===== src/Directory/Done.antt =====
-- What a run of `create_directory_tree` leaves, for every way in which it ends.
use jaytwo_library.Prelude.{
  Bool, Bool-cases, true, false, List, [], ◌∷◌, ◌++◌, Option, none, some, Bytes, is_empty, ◌≡◌, ◌⊎◌,
  refl, sym, ap, subst, inl, inr, All, append_assoc, append-nil, if◌then◌else◌, arith,
}
use jaytwo_library.Directory.{FilePath, CreateDirOptions, CreateDirResult, FileOps, join}
use jaytwo_library.Directory.Maker.{finish}
use jaytwo_library.Directory.Laws.{IsDir, IsRefusal}

-- A path with further parts.
abbrev pub extend : FilePath → List Bytes → FilePath
extend p more = record p { parts = p.parts ++ more }

pub found_cases {ℓ} : {A : Type ℓ} → (o : Option A) → (o ≡ none) ⊎ ((a : A) × (o ≡ some a))
found_cases none = inl refl
found_cases (some a) = inr (a, refl)

pub All-map :
    {P Q : FilePath → Type 0}
    → (paths : List FilePath) → ((p : FilePath) → P p → Q p)
    → All P paths
    → All Q paths
All-map [] f h = tt
All-map (p ∷ paths) f (hp, h) = (f p hp, All-map paths f h)

module _ {ℓ} {S : Type ℓ} (ops : FileOps S) (opt : CreateDirOptions) where
  -- A success means that the path is a directory; what the result lists are directories; and what
  -- was a directory still is one.
  pub record IsDone (p : FilePath) (s : S) (result : CreateDirResult × S) : Type ℓ where
    pub reached : result.0.success ≡ true → IsDir ops opt result.1 p
    pub made : All (λ q. IsDir ops opt result.1 q) result.0.created
    pub kept : (q : FilePath) → IsDir ops opt s q → IsDir ops opt result.1 q

  pub after :
      (p : FilePath) (s s' : S) (result : CreateDirResult × S)
      → ((q : FilePath) → IsDir ops opt s q → IsDir ops opt s' q)
      → IsDone p s' result
      → IsDone p s result
  after p s s' result keep d = record {
    reached = d.reached;
    made = d.made;
    kept = λ q h. d.kept q (keep q h);
  }

  pub refusal-IsDone :
      (p : FilePath) (s : S) (out stopped : CreateDirResult)
      → out.success ≡ false
      → All (λ q. IsDir ops opt s q) out.created
      → IsRefusal out stopped
      → IsDone p s (stopped, s)
  refusal-IsDone p s out stopped f h r =
      let none_yet = r.no_success in
      record {
        reached = λ e. absurd (ground (arith, e, f, none_yet));
        made = subst (All (λ q. IsDir ops opt s q)) (sym r.same_created) h;
        kept = λ q k. k;
      }

  pub either_way :
      (p : FilePath) (s : S) (b : Bool) (r r' : CreateDirResult × S)
      → IsDone p s r
      → IsDone p s r'
      → IsDone p s (if b then r else r')
  either_way p s true r r' d d' = d
  either_way p s false r r' d d' = d'

  pub finish-created : (out : CreateDirResult) → (finish ops opt out).created ≡ out.created
  finish-created out = elim (Bool-cases (is_empty out.created)) [
    | inl e ↦ rw e refl
    | inr e ↦ rw e refl
  ]

  pub extend_nil : (p : FilePath) → extend p [] ≡ p
  extend_nil p = ap (λ x. record p { parts = x }) (append-nil p.parts)

  pub extend-join :
      (p : FilePath) (part : Bytes) (more : List Bytes)
      → extend (join p part) more ≡ extend p (part ∷ more)
  extend-join p part more = ap (λ x. record p { parts = x }) (append_assoc p.parts (part ∷ []) more)
