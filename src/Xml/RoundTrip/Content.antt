-- ===== src/Xml/RoundTrip/Content.antt =====
-- A plain node is parsed to itself, with what is behind it left, when a round is there for each char.
use jaytwo_library.Prelude.{
  ℕ, ◌+◌, ◌≤◌, ◌<◌, zero, suc, Bool-cases, inl, inr, [], ◌∷◌, ◌++◌, Bytes, ◌≡◌, refl, sym, ap, ◌∙◌,
  arith, length, length-append,
}
use jaytwo_library.Text.{is_space}
use jaytwo_library.Xml.{
  trim_and_discard_empty, Head, XmlNode, element, Nodes, no_nodes, more_nodes, push_node, returned,
}
use jaytwo_library.Xml.Parser.{flush_text_buffer, parse_element, parse_content}
use jaytwo_library.Xml.Plain.{IsName, IsPlain, ArePlain}
use jaytwo_library.Xml.RoundTrip.Tags.{started}
use jaytwo_library.Xml.RoundTrip.Layout.{front_text, is_bare, indent_after, tag, tags}
use jaytwo_library.Xml.RoundTrip.Chunks.{
  indent_after-IsBlank, indent_after-All, tag_long, tags_long, chunk_long, front_text-IsChunk,
  flush_front, shorter, bare_lem, open_lem,
}
use jaytwo_library.Xml.RoundTrip.Steps.{
  IsChunk, read_step, read_tag, end_step, child_step, flush_blank,
}

abbrev append_nodes : Nodes → Nodes → Nodes
append_nodes no_nodes kids = kids
append_nodes (more_nodes n rest) kids = more_nodes n (append_nodes rest kids)

append_nodes_end : (kids : Nodes) → append_nodes kids no_nodes ≡ kids
append_nodes_end no_nodes = refl
append_nodes_end (more_nodes n kids) = ap (more_nodes n) (append_nodes_end kids)

append_nodes-push :
    (before : Nodes) (n : XmlNode) (kids : Nodes)
    → append_nodes (push_node before n) kids ≡ append_nodes before (more_nodes n kids)
append_nodes-push no_nodes n kids = refl
append_nodes-push (more_nodes m before) n kids = ap (more_nodes m) (append_nodes-push before n kids)

last_lem :
    (b : Bytes) (node after : Head) (before : Nodes) (indent : ℕ) (r : Bytes) (fuel : ℕ)
    → IsName after.name
    → IsChunk b
    → flush_text_buffer trim_and_discard_empty b node ≡ after
    → parse_content
        (suc (suc fuel))
        trim_and_discard_empty
        []
        node
        before
        []
        (b ++ tags no_nodes indent after.name r)
      ≡ returned (element after (append_nodes before no_nodes), r)
unfolding tag
last_lem b node after before indent r fuel hn hb e =
    read_step (suc fuel) trim_and_discard_empty [] node before b (b'/' ∷ (after.name ++ b'>' ∷ r))
      hb
    ∙ end_step fuel trim_and_discard_empty [] node before b r after e hn
    ∙ ap (λ x. returned (element after x, r)) (sym (append_nodes_end before))

-- A child and what follows it, when the child is parsed.
next_lem :
    (n : XmlNode) (b s : Bytes) (node after : Head) (before : Nodes) (indent fuel : ℕ)
    → IsPlain n
    → IsChunk b
    → flush_text_buffer trim_and_discard_empty b node ≡ after
    → parse_element fuel trim_and_discard_empty [] (tag n indent s) ≡ returned (n, s)
    → parse_content (suc (suc fuel)) trim_and_discard_empty [] node before [] (b ++ tag n indent s)
      ≡ parse_content fuel trim_and_discard_empty [] after (push_node before n) [] s
next_lem n b s node after before indent fuel h hb e parsed =
    read_tag (suc fuel) trim_and_discard_empty [] node before b n indent s hb
    ∙ child_step fuel trim_and_discard_empty [] node before b n indent s h
    ∙ rw (parsed, e) refl

mutual
  unfolding tag IsPlain is_space

  pub parse_element-tag :
      (n : XmlNode) (indent : ℕ) (r : Bytes) (fuel : ℕ)
      → IsPlain n
      → length (tag n indent r) ≤ fuel
      → parse_element fuel trim_and_discard_empty [] (tag n indent r) ≡ returned (n, r)
  parse_element-tag n indent r zero h lt = absurd (omega (arith, tag_long n indent r, lt))
  parse_element-tag (element h kids) indent r (suc fuel) (hp, hs) lt =
      elim (Bool-cases (is_bare h.text kids)) [
        | inl e ↦ bare_lem h kids indent r fuel hp e
        | inr e ↦
            open_lem h kids indent r fuel hp e
            ∙ parse_content-tags kids (front_text h.text kids indent) (started h.name h.attributes)
                h no_nodes indent r fuel hs hp.named (front_text-IsChunk h.text kids indent e)
                (flush_front h kids indent hp) (shorter h kids indent r fuel e lt)
      ]

  parse_content-tags :
      (kids : Nodes) (b : Bytes) (node after : Head) (before : Nodes) (indent : ℕ) (r : Bytes)
      (fuel : ℕ)
      → ArePlain kids
      → IsName after.name
      → IsChunk b
      → flush_text_buffer trim_and_discard_empty b node ≡ after
      → length (b ++ tags kids indent after.name r) < fuel
      → parse_content fuel trim_and_discard_empty [] node before []
          (b ++ tags kids indent after.name r)
        ≡ returned (element after (append_nodes before kids), r)
  parse_content-tags kids b node after before indent r zero h hn hb e lt =
      absurd (omega (arith, lt))
  parse_content-tags kids b node after before indent r (suc zero) h hn hb e lt = absurd (
      omega (
        arith,
        lt,
        length-append b (tags kids indent after.name r),
        tags_long kids indent after.name r,
      ))
  parse_content-tags no_nodes b node after before indent r (suc (suc fuel)) h hn hb e lt =
      last_lem b node after before indent r fuel hn hb e
  parse_content-tags (more_nodes n kids) b node after before indent r (suc (suc fuel)) (h, hs) hn hb
        e lt =
      let gap = 10 ∷ indent_after kids indent in
      let rest = gap ++ tags kids indent after.name r in
      let size = length-append b (tag n (indent + 2) rest) in
      let some_chars = chunk_long b hb in
      let long = tag_long n (indent + 2) rest in
      next_lem n b rest node after before (indent + 2) fuel h hb e
        (parse_element-tag n (indent + 2) rest fuel h (omega (arith, lt, size, some_chars)))
      ∙ parse_content-tags kids gap after after (push_node before n) indent r fuel hs hn
          (refl, indent_after-All kids indent)
          (flush_blank gap after (refl, indent_after-IsBlank kids indent))
          (omega (arith, lt, size, some_chars, long))
      ∙ ap (λ x. returned (element after x, r)) (append_nodes-push before n kids)
