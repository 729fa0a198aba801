-- ===== src/Xml/Reach.antt =====
-- What a path selects: the nodes that its steps lead to, one level down with each step.
use mathlib.Core.List.{Memᴰ}
use mathlib.Core.List.Memᴰ
use jaytwo_library.Prelude.{
  Bool-cases, true, false, List, [], ◌∷◌, Option, none, some, Bytes, ◌≡◌, ◌↔◌, ◌⊎◌, inl, inr, refl,
  sym, ap, ◌∙◌, subst, arith, is_empty, if◌then◌else◌,
}
use jaytwo_library.Text.{str_eq}
use jaytwo_library.Text.Find.{str_eq_iff}
use jaytwo_library.Xml.{
  XmlAttribute, XmlNode, head_of, kids_of, children_of, find_attribute, returned, ◌>>=◌,
}
use jaytwo_library.Xml.Access.{value_of}
use jaytwo_library.Xml.Path.{
  XpathStep, parse_xpath, step_matches, matching, match_step_in_children, match_below, select_loop,
  skip_root, bare_path, xpath_select,
}

-- The name is the step's, and so is the value of the attribute that the step names, if it names one.
abbrev pub Fits : XpathStep → XmlNode → Type 0
Fits step child =
    ((head_of child).name ≡ step.name)
    × ((step.attr_name ≡ [])
        ⊎ (attr : XmlAttribute) × (find_attribute child step.attr_name ≡ some attr)
          × (attr.value ≡ step.attr_value))

-- The steps lead from a node to one below it.
pub data Reaches : List XpathStep → XmlNode → XmlNode → Type 0 where
  here : {n : XmlNode} → Reaches [] n n
  below :
      {step : XpathStep} {steps : List XpathStep} {n t : XmlNode}
      → (child : XmlNode) → Memᴰ child (children_of (kids_of n))
      → Fits step child
      → Reaches steps child t
      → Reaches (step ∷ steps) n t

no_name : false ≡ true → ⊥
no_name e = cc

attribute_fits :
    (found : Option XmlAttribute) (value : Bytes)
    → ((elim found [ none ↦ false | some attr ↦ str_eq attr.value value ]) ≡ true)
      ↔ ((attr : XmlAttribute) × (found ≡ some attr) × (attr.value ≡ value))
attribute_fits none value = ground arith
attribute_fits (some a) value = (
  λ e. (a, refl, (str_eq_iff a.value value).0 e),
  λ w. (str_eq_iff a.value value).1 (ap value_of w.1 ∙ w.2),
)

empty_name : (s : Bytes) → (is_empty s ≡ true) ↔ (s ≡ [])
empty_name [] = (λ e. refl, λ e. refl)
empty_name (c ∷ s) = ground arith

step_matches-Fits :
    (step : XpathStep) (child : XmlNode) → (step_matches step child ≡ true) ↔ Fits step child
unfolding step_matches
step_matches-Fits step child =
    let named = str_eq_iff (head_of child).name step.name in
    let unnamed = empty_name step.attr_name in
    let fits = attribute_fits (find_attribute child step.attr_name) step.attr_value in
    elim (Bool-cases (str_eq (head_of child).name step.name)) [
      | inr e ↦ rw e (λ h. cc, λ h. absurd (no_name (sym e ∙ named.1 h.0)))
      | inl e ↦ elim (Bool-cases (is_empty step.attr_name)) [
        | inl f ↦ rw (e, f) (λ h. (named.0 e, inl (unnamed.0 f)), λ h. refl)
        | inr f ↦
            rw (e, f)
              (
                λ h. (named.0 e, inr (fits.0 h)),
                λ h. elim h.1 [ inl z ↦ absurd (no_name (sym f ∙ unnamed.1 z)) | inr w ↦ fits.1 w ],
              )
      ]
    ]

Memᴰ-matching :
    (step : XpathStep) (nodes : List XmlNode) (c : XmlNode)
    → Memᴰ c (matching step nodes) ↔ (Memᴰ c nodes × (step_matches step c ≡ true))
unfolding matching
Memᴰ-matching step [] c = (λ h. absurd (Memᴰ.not-nil h), λ h. absurd (Memᴰ.not-nil h.0))
Memᴰ-matching step (child ∷ rest) c =
    let (to, from) = Memᴰ-matching step rest c in
    elim (Bool-cases (step_matches step child)) [
      | inl e ↦ rw e (
        λ h. elim (Memᴰ.cases_cons h) [
          | inl z ↦ (Memᴰ.head z, ap (step_matches step) z ∙ e)
          | inr w ↦ (Memᴰ.tail (to w).0, (to w).1)
        ],
        λ h. elim (Memᴰ.cases_cons h.0) [ inl z ↦ Memᴰ.head z | inr w ↦ Memᴰ.tail (from (w, h.1)) ],
      )
      | inr e ↦ rw e (
        λ w. (Memᴰ.tail (to w).0, (to w).1),
        λ h. elim (Memᴰ.cases_cons h.0) [
          | inl z ↦ absurd (no_name (sym e ∙ ap (step_matches step) (sym z) ∙ h.1))
          | inr w ↦ from (w, h.1)
        ],
      )
    ]

Memᴰ-match_below :
    (nodes : List XmlNode) (step : XpathStep) (c : XmlNode)
    → Memᴰ c (match_below nodes step)
      ↔ ((p : XmlNode) × Memᴰ p nodes × Memᴰ c (children_of (kids_of p)) × Fits step c)
unfolding match_below match_step_in_children
Memᴰ-match_below [] step c = (λ h. absurd (Memᴰ.not-nil h), λ h. absurd (Memᴰ.not-nil h.1))
Memᴰ-match_below (n ∷ nodes) step c =
    let kids = children_of (kids_of n) in
    let (to, from) = Memᴰ-match_below nodes step c in
    let (to_kid, from_kid) = Memᴰ-matching step kids c in
    let (fits, matches) = step_matches-Fits step c in
    (
      λ h. elim (Memᴰ.append_cases (matching step kids) h) [
        | inl m ↦ (n, Memᴰ.head refl, (to_kid m).0, fits (to_kid m).1)
        | inr m ↦ let (p, mp, mc, f) = to m in (p, Memᴰ.tail mp, mc, f)
      ],
      λ (p, mp, mc, f). elim (Memᴰ.cases_cons mp) [
        | inl z ↦
            Memᴰ.append_left (match_below nodes step)
              (from_kid (subst (λ x. Memᴰ c (children_of (kids_of x))) z mc, matches f))
        | inr w ↦ Memᴰ.append_right (matching step kids) (from (p, w, mc, f))
      ],
    )

select_loop-nil : (steps : List XpathStep) → select_loop steps [] ≡ []
unfolding select_loop match_below
select_loop-nil [] = refl
select_loop-nil (step ∷ steps) = refl

-- The `break` leaves what going on would give.
select_loop_step :
    (step : XpathStep) (steps : List XpathStep) (nodes : List XmlNode)
    → select_loop (step ∷ steps) nodes ≡ select_loop steps (match_below nodes step)
unfolding select_loop
select_loop_step step steps nodes = either (match_below nodes step)
  where
    either :
        (next : List XmlNode)
        → (if is_empty next then [] else select_loop steps next) ≡ select_loop steps next
    either [] = sym (select_loop-nil steps)
    either (n ∷ next) = refl

Reaches-end : {n t : XmlNode} → Reaches [] n t → t ≡ n
Reaches-end here = refl

Reaches-below :
    {step : XpathStep} {steps : List XpathStep} {n t : XmlNode}
    → Reaches (step ∷ steps) n t
    → (child : XmlNode) × Memᴰ child (children_of (kids_of n))
      × Fits step child
      × Reaches steps child t
Reaches-below (below child m f r) = (child, m, f, r)

Memᴰ-select_loop :
    (steps : List XpathStep) (nodes : List XmlNode) (t : XmlNode)
    → Memᴰ t (select_loop steps nodes) ↔ ((p : XmlNode) × Memᴰ p nodes × Reaches steps p t)
unfolding select_loop
Memᴰ-select_loop [] nodes t = (λ m. (t, m, here), λ w. Memᴰ.cast (Reaches-end w.2) w.1)
Memᴰ-select_loop (step ∷ steps) nodes t =
    let (to, from) = Memᴰ-select_loop steps (match_below nodes step) t in
    rw (select_loop_step step steps nodes) (
      λ m.
          let (c, mc, r) = to m in
          let (p, mp, mk, f) = (Memᴰ-match_below nodes step c).0 mc in (p, mp, below c mk f r),
      λ w.
          let (c, mk, f, r) = Reaches-below w.2 in
          from (c, (Memᴰ-match_below nodes step c).1 (w.0, w.1, mk, f), r),
    )

Memᴰ-single :
    (steps : List XpathStep) (root t : XmlNode)
    → Memᴰ t (select_loop steps (root ∷ [])) ↔ Reaches steps root t
Memᴰ-single steps root t =
    let (to, from) = Memᴰ-select_loop steps (root ∷ []) t in
    (
      λ m. let (p, mp, r) = to m in subst (λ x. Reaches steps x t) (Memᴰ.eq_of_singleton mp) r,
      λ r. from (root, Memᴰ.head refl, r),
    )

-- An empty path has no steps, so it need not be told apart.
selected :
    (trimmed : Bytes) (root : XmlNode) (steps : List XpathStep)
    → parse_xpath trimmed ≡ returned steps
    → (if is_empty trimmed
        then returned (root ∷ [])
        else (parse_xpath trimmed >>= λ found.
            returned (select_loop (skip_root root found) (root ∷ []))))
      ≡ returned (select_loop (skip_root root steps) (root ∷ []))
unfolding parse_xpath skip_root select_loop
selected [] root steps h =
    ap (λ x. x >>= λ found. returned (select_loop (skip_root root found) (root ∷ []))) h
selected (c ∷ trimmed) root steps h =
    ap (λ x. x >>= λ found. returned (select_loop (skip_root root found) (root ∷ []))) h

-- When the path is parsed to steps, the selection returns a list, and in it are exactly the nodes to
-- which the steps lead from the root, without the first step when it names the root itself.
pub xpath_select-Reaches :
    (root : XmlNode) (expr : Bytes) (steps : List XpathStep)
    → parse_xpath (bare_path expr) ≡ returned steps
    → (nodes : List XmlNode) × (xpath_select root expr ≡ returned nodes)
      × ((t : XmlNode) → Memᴰ t nodes ↔ Reaches (skip_root root steps) root t)
unfolding xpath_select
xpath_select-Reaches root expr steps h = (
  select_loop (skip_root root steps) (root ∷ []),
  selected (bare_path expr) root steps h,
  Memᴰ-single (skip_root root steps) root,
)
