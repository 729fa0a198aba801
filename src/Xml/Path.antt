-- ===== src/Xml/Path.antt =====
-- The path expressions of j2_library/src/xml/xml_parser.cpp: steps with an optional condition on an
-- attribute, and the nodes that they select below a node.
use jaytwo_library.Prelude.{
  Bool, true, false, not, ◌&&◌, ◌||◌, List, [], ◌∷◌, ◌++◌, none, some, Bytes, length, drop,
  is_empty, if◌then◌else◌, ltb, ◌==◌,
}
use jaytwo_library.Text.{is_space, str_eq, drop_while}
use jaytwo_library.Xml.{
  XmlNode, head_of, kids_of, children_of, find_attribute, Result, thrown, returned, ◌>>=◌,
  bracket_open, bad_condition, condition_equals, condition_quote, condition_open,
}
use jaytwo_library.Xml.Text.{trim_spaces, peek_char, read_until}

pub record XpathStep : Type 0 where
  pub name : Bytes
  pub attr_name : Bytes
  pub attr_value : Bytes

abbrev pub name_step : Bytes → XpathStep
name_step name = record { name = name; attr_name = []; attr_value = [] }

-- `std::remove_if` with `isspace`, and `erase`.
unfoldable pub remove_spaces : Bytes → Bytes
remove_spaces [] = []
remove_spaces (c ∷ s) = let rest = remove_spaces s in if is_space c then rest else c ∷ rest

-- The value of a condition, from its opening quote on. Behind the end of a text stands a NUL, which is
-- no quote.
abbrev pub condition_value : Bytes → Result Bytes
condition_value [] = thrown condition_quote
condition_value (quote ∷ s) =
    let (value, rest) = read_until (λ c. c == quote) s in
    if not (quote == 34) && not (quote == 39)
    then thrown condition_quote
    else if is_empty rest
    then thrown condition_open
    else returned value

-- `@name='value'`, with its blanks removed.
unfoldable pub parse_condition : Bytes → Bytes → Result XpathStep
unfolding read_until
parse_condition name cond =
    let (before, rest) = read_until (λ c. c == b'=') cond in
    if ltb (length cond) 5 || not (peek_char cond b'@')
    then thrown bad_condition
    else if is_empty rest
    then thrown condition_equals
    else condition_value (drop 1 rest) >>= λ value.
        returned (record { name = name; attr_name = drop 1 before; attr_value = value })

unfoldable pub parse_xpath_step : Bytes → Result XpathStep
unfolding read_until parse_condition remove_spaces
parse_xpath_step step_str =
    let (name, rest) = read_until (λ c. c == b'[') step_str in
    let (cond, close) = read_until (λ c. c == b']') (drop 1 rest) in
    if is_empty rest
    then returned (name_step step_str)
    else if is_empty close
    then thrown bracket_open
    else parse_condition name (remove_spaces cond)

-- The last step, and the steps between the slashes; empty ones are skipped.
abbrev pub push_step : Bytes → List XpathStep → Result (List XpathStep)
push_step tmp steps =
    if is_empty tmp
    then returned steps
    else (parse_xpath_step tmp >>= λ step. returned (steps ++ step ∷ []))

unfoldable pub parse_xpath_loop : Bytes → Bytes → List XpathStep → Result (List XpathStep)
unfolding parse_xpath_step
parse_xpath_loop [] tmp steps = push_step tmp steps
parse_xpath_loop (ch ∷ expr) tmp steps = elim (ch == b'/') [
  | true ↦ push_step tmp steps >>= λ more. parse_xpath_loop expr [] more
  | false ↦ parse_xpath_loop expr (tmp ++ ch ∷ []) steps
]

unfoldable pub parse_xpath : Bytes → Result (List XpathStep)
unfolding parse_xpath_loop
parse_xpath expr = parse_xpath_loop expr [] []

-- The two tests on a child.
unfoldable pub step_matches : XpathStep → XmlNode → Bool
unfolding find_attribute
step_matches step child =
    if not (str_eq (head_of child).name step.name)
    then false
    else if is_empty step.attr_name
    then true
    else elim (find_attribute child step.attr_name) [
      | none ↦ false
      | some attr ↦ str_eq attr.value step.attr_value
    ]

unfoldable pub matching : XpathStep → List XmlNode → List XmlNode
matching step [] = []
matching step (child ∷ rest) =
    let more = matching step rest in if step_matches step child then child ∷ more else more

unfoldable pub match_step_in_children : XmlNode → XpathStep → List XmlNode
unfolding matching
match_step_in_children parent step = matching step (children_of (kids_of parent))

-- One step below each of the nodes.
unfoldable pub match_below : List XmlNode → XpathStep → List XmlNode
unfolding match_step_in_children
match_below [] step = []
match_below (node ∷ current) step = match_step_in_children node step ++ match_below current step

-- The loop over the steps, with its `break`.
unfoldable pub select_loop : List XpathStep → List XmlNode → List XmlNode
unfolding match_below
select_loop [] current = current
select_loop (step ∷ steps) current =
    let rest = select_loop steps (match_below current step) in
    if is_empty (match_below current step) then [] else rest

-- A first step with the root's name is skipped.
unfoldable pub skip_root : XmlNode → List XpathStep → List XpathStep
skip_root root [] = []
skip_root root (step ∷ steps) = if str_eq step.name (head_of root).name then steps else step ∷ steps

-- Without blanks round it and slashes before it.
unfoldable pub bare_path : Bytes → Bytes
unfolding trim_spaces drop_while
bare_path path = drop_while (λ c. c == b'/') (trim_spaces path)

unfoldable pub xpath_select : XmlNode → Bytes → Result (List XmlNode)
unfolding bare_path parse_xpath select_loop skip_root
xpath_select root expr =
    let trimmed = bare_path expr in
    if is_empty trimmed
    then returned (root ∷ [])
    else (parse_xpath trimmed >>= λ steps.
        returned (select_loop (skip_root root steps) (root ∷ [])))
