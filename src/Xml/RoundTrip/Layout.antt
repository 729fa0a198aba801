-- ===== src/Xml/RoundTrip/Layout.antt =====
-- What is printed for a node, in the order in which it is read: with the text behind it.
use jaytwo_library.Prelude.{
  ℕ, ◌+◌, Bool, true, false, not, ◌&&◌, [], ◌∷◌, ◌++◌, Bytes, codes, ◌≡◌, refl, sym, ap, ◌∙◌,
  append_assoc, is_empty, if◌then◌else◌,
}
use jaytwo_library.Xml.{XmlNode, element, Nodes, no_nodes, more_nodes}
use jaytwo_library.Xml.Serializer.{
  escape_text, attributes_text, has_children, spaces, serialize_node, serialize_nodes,
}

-- What is printed between a node's `>` and its first child, or its end tag.
abbrev pub front_text : Bytes → Nodes → ℕ → Bytes
front_text text no_nodes indent = escape_text text
front_text text (more_nodes n kids) indent = escape_text text ++ 10 ∷ spaces (indent + 2)

-- The indent of what follows a child.
abbrev pub indent_after : Nodes → ℕ → Bytes
indent_after no_nodes indent = spaces indent
indent_after (more_nodes n kids) indent = spaces (indent + 2)

-- `/>` for a node with nothing in it.
abbrev pub is_bare : Bytes → Nodes → Bool
is_bare text kids = not (has_children kids) && is_empty text

unfoldable mutual
  unfolding escape_text attributes_text

  pub tag : XmlNode → ℕ → Bytes → Bytes
  tag (element h kids) indent r =
      let inner = front_text h.text kids indent ++ tags kids indent h.name r in
      b'<'
      ∷ (h.name
          ++ (attributes_text h.attributes
              ++ (if is_bare h.text kids then 32 ∷ b'/' ∷ b'>' ∷ r else b'>' ∷ inner)))

  pub tags : Nodes → ℕ → Bytes → Bytes → Bytes
  tags no_nodes indent name r = codes "</" ++ (name ++ b'>' ∷ r)
  tags (more_nodes n kids) indent name r =
      tag n (indent + 2) (10 ∷ (indent_after kids indent ++ tags kids indent name r))

-- The printed text of a node, bracketed to the right, with what is behind it.
inner_shape :
    (front name listed text inner back r : Bytes)
    → (front
          ++ (b'<'
              ∷ (name
                  ++ (listed
                      ++ b'>'
                        ∷ (text
                            ++ 10
                              ∷ ((inner ++ back) ++ (codes "</" ++ (name ++ b'>' ∷ 10 ∷ []))))))))
        ++ r
      ≡ front
        ++ (b'<'
            ∷ (name
                ++ (listed
                    ++ b'>'
                      ∷ (text
                          ++ 10 ∷ (inner ++ (back ++ (codes "</" ++ (name ++ b'>' ∷ 10 ∷ r))))))))
inner_shape front name listed text inner back r = simp append_assoc

leaf_shape :
    (bare : Bool) (front name listed text r : Bytes)
    → (front
          ++ (b'<'
              ∷ (name
                  ++ (listed
                      ++ (if bare
                          then 32 ∷ b'/' ∷ b'>' ∷ 10 ∷ []
                          else b'>' ∷ (text ++ (codes "</" ++ (name ++ b'>' ∷ 10 ∷ []))))))))
        ++ r
      ≡ front
        ++ (b'<'
            ∷ (name
                ++ (listed
                    ++ (if bare
                        then 32 ∷ b'/' ∷ b'>' ∷ 10 ∷ r
                        else b'>' ∷ (text ++ (codes "</" ++ (name ++ b'>' ∷ 10 ∷ r)))))))
leaf_shape true front name listed text r = simp append_assoc
leaf_shape false front name listed text r = simp append_assoc

mutual
  unfolding tag serialize_node

  pub serialize_node-tag :
      (n : XmlNode) (indent : ℕ) (r : Bytes)
      → serialize_node n indent ++ r ≡ spaces indent ++ tag n indent (10 ∷ r)
  serialize_node-tag (element h no_nodes) indent r =
      leaf_shape (is_empty h.text) (spaces indent) h.name (attributes_text h.attributes)
        (escape_text h.text) r
  serialize_node-tag (element h (more_nodes n kids)) indent r =
      inner_shape (spaces indent) h.name (attributes_text h.attributes) (escape_text h.text)
        (serialize_nodes (more_nodes n kids) (indent + 2)) (spaces indent) r
      ∙ ap (λ x. spaces indent ++ (b'<' ∷ (h.name ++ (attributes_text h.attributes ++ b'>' ∷ x))))
          (ap (λ x. escape_text h.text ++ 10 ∷ x)
              (serialize_nodes-tags (more_nodes n kids) indent h.name r)
            ∙ sym (
                append_assoc (escape_text h.text) (10 ∷ spaces (indent + 2))
                  (tags (more_nodes n kids) indent h.name (10 ∷ r))))

  serialize_nodes-tags :
      (kids : Nodes) (indent : ℕ) (name r : Bytes)
      → serialize_nodes kids (indent + 2)
          ++ (spaces indent ++ (codes "</" ++ (name ++ (b'>' ∷ 10 ∷ r))))
        ≡ indent_after kids indent ++ tags kids indent name (10 ∷ r)
  serialize_nodes-tags no_nodes indent name r = refl
  serialize_nodes-tags (more_nodes n kids) indent name r =
      let close = spaces indent ++ (codes "</" ++ (name ++ (b'>' ∷ 10 ∷ r))) in
      append_assoc (serialize_node n (indent + 2)) (serialize_nodes kids (indent + 2)) close
      ∙ ap (◌++◌ (serialize_node n (indent + 2))) (serialize_nodes-tags kids indent name r)
      ∙ serialize_node-tag n (indent + 2)
          (indent_after kids indent ++ tags kids indent name (10 ∷ r))
