-- ===== src/Xml/Required.antt =====
-- The validator of required paths and the access to a text agree.
use jaytwo_library.Prelude.{
  Bool, true, false, List, [], ◌∷◌, Option, none, some, Bytes, ◌≡◌, ◌↔◌, ◌⊎◌, inl, inr, refl, ap,
  ◌∙◌, All, if◌then◌else◌,
}
use jaytwo_library.Xml.{
  XmlAttribute, XmlNode, head_of, find_attribute, XmlError, Result, thrown, returned, ◌>>=◌,
}
use jaytwo_library.Xml.Text.{trim_spaces}
use jaytwo_library.Xml.Path.{bare_path, xpath_select}
use jaytwo_library.Xml.Access.{
  split_last, attr_name_of, target_of, value_of, get_attr_value_by_path, is_attr_path,
  get_text_by_path, PathFault, path_missing, path_malformed, attribute_missing, check_path,
  validate,
}

-- A path that names an attribute leads to a node with it; another path leads to a node.
abbrev pub FindsAttribute : XmlNode → Bytes → Bytes → Type 0
FindsAttribute root path value =
    (attr_name : Bytes) × (node : XmlNode) × (attr : XmlAttribute) × (attr_name_of
        (trim_spaces (split_last (bare_path path)).1)
      ≡ some attr_name)
    × (target_of root (split_last (bare_path path)).0 ≡ returned (some node))
    × (find_attribute node attr_name ≡ some attr)
    × (attr.value ≡ value)

abbrev pub FindsText : XmlNode → Bytes → Bytes → Type 0
FindsText root path value =
    (node : XmlNode) × (rest : List XmlNode) × (xpath_select root path ≡ returned (node ∷ rest))
    × ((head_of node).text ≡ value)

abbrev pub Finds : XmlNode → Bytes → Bytes → Type 0
Finds root path value =
    ((is_attr_path path ≡ true) × FindsAttribute root path value)
    ⊎ ((is_attr_path path ≡ false) × FindsText root path value)

-- What is found is what the access returns, and the check passes.
found_attribute :
    (root : XmlNode) (path value : Bytes)
    → FindsAttribute root path value
    → get_attr_value_by_path (some root) path ≡ returned value
unfolding get_attr_value_by_path find_attribute
found_attribute root path value (name, node, attr, f, g, h, k) =
    rw (f, g, get_attr_value_by_path) (ap (λ x. returned (value_of x)) h ∙ ap returned k)

found_text :
    (root : XmlNode) (path value : Bytes)
    → Finds root path value
    → get_text_by_path (some root) path ≡ returned value
unfolding get_text_by_path
found_text root path value (inl (e, w)) = rw e (found_attribute root path value w)
found_text root path value (inr (e, (node, rest, f, g))) = rw (e, f, g) refl

abbrev attribute_check : Bytes → Option XmlAttribute → Result (Option PathFault)
attribute_check path none = returned (some (attribute_missing path))
attribute_check path (some attr) = returned none

found_check :
    (root : XmlNode) (path value : Bytes)
    → Finds root path value
    → check_path root path ≡ returned none
unfolding check_path find_attribute
found_check root path value (inl (e, (name, node, attr, f, g, h, k))) =
    rw (e, f, g) (ap (attribute_check path) h)
found_check root path value (inr (e, (node, rest, f, g))) = rw (e, f) refl

fault≢none : {fault : PathFault} → ¬ (returned (some fault) ≡ returned none)
fault≢none e = cc

error≢none : {A : Type 0} {error : XmlError} {a : A} → ¬ (thrown error ≡ returned a)
error≢none e = cc

-- What makes a check pass, one test after the other.
select_passes :
    (path : Bytes) (r : Result (List XmlNode))
    → (r >>= λ nodes. elim nodes [
      | [] ↦ returned (some (path_missing path))
      | node ∷ rest ↦ returned none
    ])
      ≡ returned none
    → (node : XmlNode) × (rest : List XmlNode) × (r ≡ returned (node ∷ rest))
select_passes path (thrown error) h = absurd (error≢none h)
select_passes path (returned []) h = absurd (fault≢none h)
select_passes path (returned (node ∷ rest)) h = (node, rest, refl)

attribute_passes :
    (path : Bytes) (found : Option XmlAttribute)
    → (elim found [ none ↦ returned (some (attribute_missing path)) | some attr ↦ returned none ])
      ≡ returned none
    → (attr : XmlAttribute) × (found ≡ some attr)
attribute_passes path none h = absurd (fault≢none h)
attribute_passes path (some attr) h = (attr, refl)

target_passes :
    (path attr_name : Bytes) (target : Result (Option XmlNode))
    → (target >>= λ there. elim there [
      | none ↦ returned (some (path_missing path))
      | some node ↦ elim (find_attribute node attr_name) [
        | none ↦ returned (some (attribute_missing path))
        | some attr ↦ returned none
      ]
    ])
      ≡ returned none
    → (node : XmlNode) × (attr : XmlAttribute) × (target ≡ returned (some node))
      × (find_attribute node attr_name ≡ some attr)
target_passes path attr_name (thrown error) h = absurd (error≢none h)
target_passes path attr_name (returned none) h = absurd (fault≢none h)
target_passes path attr_name (returned (some node)) h =
    let (attr, e) = attribute_passes path (find_attribute node attr_name) h in (node, attr, refl, e)

name_passes :
    (path : Bytes) (name : Option Bytes) (target : Result (Option XmlNode))
    → (elim name [
      | none ↦ returned (some (path_malformed path))
      | some attr_name ↦ target >>= λ there. elim there [
        | none ↦ returned (some (path_missing path))
        | some node ↦ elim (find_attribute node attr_name) [
          | none ↦ returned (some (attribute_missing path))
          | some attr ↦ returned none
        ]
      ]
    ])
      ≡ returned none
    → (attr_name : Bytes) × (node : XmlNode) × (attr : XmlAttribute) × (name ≡ some attr_name)
      × (target ≡ returned (some node))
      × (find_attribute node attr_name ≡ some attr)
name_passes path none target h = absurd (fault≢none h)
name_passes path (some attr_name) target h =
    let (node, attr, f, g) = target_passes path attr_name target h in
    (attr_name, node, attr, refl, f, g)

branch_passes :
    (attribute : Bool) (r r' : Result (Option PathFault))
    → (if attribute then r else r') ≡ returned none
    → ((attribute ≡ true) × (r ≡ returned none)) ⊎ ((attribute ≡ false) × (r' ≡ returned none))
branch_passes true r r' h = inl (refl, h)
branch_passes false r r' h = inr (refl, h)

check_found :
    (root : XmlNode) (path : Bytes)
    → check_path root path ≡ returned none
    → (value : Bytes) × Finds root path value
unfolding check_path
check_found root path h =
    let (node_path, attr_part) = split_last (bare_path path) in
    elim (branch_passes (is_attr_path path) _ _ h) [
      | inl (e, f) ↦
          let (name, node, attr, a, b, c) =
            name_passes path (attr_name_of (trim_spaces attr_part)) (target_of root node_path) f in
          (attr.value, inl (e, (name, node, attr, a, b, c, refl)))
      | inr (e, f) ↦
          let (node, rest, a) = select_passes path (xpath_select root path) f in
          ((head_of node).text, inr (e, (node, rest, a, refl)))
    ]

later_passes :
    (first later : Result (Option PathFault))
    → ((first >>= λ fault. elim fault [ some f ↦ returned (some f) | none ↦ later ])
        ≡ returned none)
      ↔ ((first ≡ returned none) × (later ≡ returned none))
later_passes (thrown error) later = (λ h. absurd (error≢none h), λ h. absurd (error≢none h.0))
later_passes (returned (some f)) later = (λ h. absurd (fault≢none h), λ h. absurd (fault≢none h.0))
later_passes (returned none) later = (λ h. (refl, h), λ h. h.1)

validate-All :
    (required_paths : List Bytes) (root : XmlNode)
    → (validate required_paths root ≡ returned none)
      ↔ All (λ path. check_path root path ≡ returned none) required_paths
unfolding validate
validate-All [] root = (λ h. tt, λ h. refl)
validate-All (path ∷ required_paths) root =
    let (to, from) = later_passes (check_path root path) (validate required_paths root) in
    let (all, back) = validate-All required_paths root in
    (λ h. ((to h).0, all (to h).1), λ h. from (h.0, back h.1))

All-map :
    {P Q : Bytes → Type 0}
    → (paths : List Bytes) → ((path : Bytes) → P path → Q path)
    → All P paths
    → All Q paths
All-map [] f h = tt
All-map (path ∷ paths) f (hp, h) = (f path hp, All-map paths f h)

-- The validator accepts a node just when every required path finds an attribute or a text in it that
-- `get_text_by_path` returns for the path.
pub validate-get_text :
    (required_paths : List Bytes) (root : XmlNode)
    → (validate required_paths root ≡ returned none)
      ↔ All
          (λ path.
            (value : Bytes) × Finds root path value
            × (get_text_by_path (some root) path ≡ returned value))
          required_paths
validate-get_text required_paths root =
    let (to, from) = validate-All required_paths root in
    (
      λ h.
          All-map required_paths
            (λ path k.
              let (value, w) = check_found root path k in (value, w, found_text root path value w))
            (to h),
      λ h. from (All-map required_paths (λ path w. found_check root path w.0 w.1) h),
    )
