-- ===== src/Xml/RoundTrip/Chunks.antt =====
-- The sizes and the texts between the tags of what is printed.
use jaytwo_library.Prelude.{
  ℕ, ◌+◌, ◌≤◌, ◌<◌, zero, suc, Bool, true, false, [], ◌∷◌, ◌++◌, Bytes, ◌==◌, ◌≡◌, refl, sym, ap,
  ◌∙◌, subst, arith, All, All-append, length, length-append, append-nil, is_empty, if◌then◌else◌,
}
use jaytwo_library.Text.{is_space}
use jaytwo_library.StringBasic.Trim.Laws.{IsBlank}
use jaytwo_library.Xml.{
  trim_and_discard_empty, Head, XmlNode, element, Nodes, no_nodes, more_nodes, returned,
}
use jaytwo_library.Xml.Parser.{flush_text_buffer, parse_element, parse_content}
use jaytwo_library.Xml.Serializer.{escape_text, attributes_text, spaces}
use jaytwo_library.Xml.Escape.{escape_text-All, length-escape_text}
use jaytwo_library.Xml.Plain.{IsPlainHead}
use jaytwo_library.Xml.RoundTrip.Tags.{started}
use jaytwo_library.Xml.RoundTrip.Layout.{front_text, is_bare, indent_after, tag, tags}
use jaytwo_library.Xml.RoundTrip.Steps.{IsChunk, bare_element, open_element, flush_lem}

spaces-IsBlank : (k : ℕ) → IsBlank (spaces k)
unfolding is_space
spaces-IsBlank zero = tt
spaces-IsBlank (suc k) = (refl, spaces-IsBlank k)

pub indent_after-IsBlank : (kids : Nodes) (indent : ℕ) → IsBlank (indent_after kids indent)
indent_after-IsBlank no_nodes indent = spaces-IsBlank indent
indent_after-IsBlank (more_nodes n kids) indent = spaces-IsBlank (indent + 2)

spaces-All : (k : ℕ) → All (λ d. (d == b'<') ≡ false) (spaces k)
spaces-All zero = tt
spaces-All (suc k) = (refl, spaces-All k)

pub indent_after-All :
    (kids : Nodes) (indent : ℕ) → All (λ d. (d == b'<') ≡ false) (indent_after kids indent)
indent_after-All no_nodes indent = spaces-All indent
indent_after-All (more_nodes n kids) indent = spaces-All (indent + 2)

either_long :
    (bare : Bool) (r inner : Bytes)
    → length r + 2 ≤ length inner
    → length r + 3 ≤ length (if bare then 32 ∷ b'/' ∷ b'>' ∷ r else b'>' ∷ inner)
either_long true r inner h = omega arith
either_long false r inner h = omega (arith, h)

empty_text : (text : Bytes) → is_empty text ≡ true → text ≡ []
empty_text [] e = refl
empty_text (c ∷ text) e = cc

mutual
  unfolding tag

  pub tag_long : (n : XmlNode) (indent : ℕ) (r : Bytes) → length r + 4 ≤ length (tag n indent r)
  tag_long (element h kids) indent r =
      let after = tags kids indent h.name r in
      let inner = front_text h.text kids indent ++ after in
      let body = if is_bare h.text kids then 32 ∷ b'/' ∷ b'>' ∷ r else b'>' ∷ inner in
      let long = either_long (is_bare h.text kids) r inner (
        omega (
          arith,
          length-append (front_text h.text kids indent) after,
          tags_long kids indent h.name r,
        )) in
      omega (
        arith,
        long,
        length-append h.name (attributes_text h.attributes ++ body),
        length-append (attributes_text h.attributes) body,
      )

  pub tags_long :
      (kids : Nodes) (indent : ℕ) (name r : Bytes) → length r + 3 ≤ length (tags kids indent name r)
  tags_long no_nodes indent name r = omega (arith, length-append name (b'>' ∷ r))
  tags_long (more_nodes n kids) indent name r =
      let rest = tags kids indent name r in
      omega (
        arith,
        tag_long n (indent + 2) (10 ∷ (indent_after kids indent ++ rest)),
        length-append (indent_after kids indent) rest,
        tags_long kids indent name r,
      )

-- The start tag of a plain node gives its head back, once the text is there.
plain_head :
    (h : Head)
    → IsPlainHead h
    → record { name = h.name; prefix = []; ns_uri = []; text = h.text; attributes = h.attributes }
      ≡ h
plain_head h hp = λ i. record {
  name = h.name;
  prefix = sym hp.no_prefix i;
  ns_uri = sym hp.no_uri i;
  text = h.text;
  attributes = h.attributes;
}

pub bare_lem :
    (h : Head) (kids : Nodes) (indent : ℕ) (r : Bytes) (fuel : ℕ)
    → IsPlainHead h
    → is_bare h.text kids ≡ true
    → parse_element (suc fuel) trim_and_discard_empty [] (tag (element h kids) indent r)
      ≡ returned (element h kids, r)
unfolding tag
bare_lem h (more_nodes n kids) indent r fuel hp e = absurd (ground (arith, e))
bare_lem h no_nodes indent r fuel hp e =
    let start =
      bare_element fuel trim_and_discard_empty h.name h.attributes r hp.named hp.plain_attributes in
    let same =
      ap
        (λ x. record {
          name = h.name;
          prefix = [];
          ns_uri = [];
          text = x;
          attributes = h.attributes;
        })
        (sym (empty_text h.text e))
      ∙ plain_head h hp in
    rw e (start ∙ ap (λ x. returned (element x no_nodes, r)) same)

pub open_lem :
    (h : Head) (kids : Nodes) (indent : ℕ) (r : Bytes) (fuel : ℕ)
    → IsPlainHead h
    → is_bare h.text kids ≡ false
    → parse_element (suc fuel) trim_and_discard_empty [] (tag (element h kids) indent r)
      ≡ parse_content fuel trim_and_discard_empty []
          (started h.name h.attributes)
          no_nodes
          []
          (front_text h.text kids indent ++ tags kids indent h.name r)
unfolding tag
open_lem h kids indent r fuel hp e =
    let inner = front_text h.text kids indent ++ tags kids indent h.name r in
    rw e (
      open_element fuel trim_and_discard_empty h.name h.attributes inner hp.named
        hp.plain_attributes)

IsChunk-append :
    (a b : Bytes)
    → All (λ d. (d == b'<') ≡ false) a
    → All (λ d. (d == b'<') ≡ false) b
    → 1 ≤ length a + length b
    → IsChunk (a ++ b)
IsChunk-append [] [] ha hb lt = absurd (omega (arith, lt))
IsChunk-append [] (d ∷ b) ha hb lt = hb
IsChunk-append (c ∷ a) b ha hb lt = All-append (λ d. (d == b'<') ≡ false) (c ∷ a) b ha hb

pub chunk_long : (b : Bytes) → IsChunk b → 1 ≤ length b
chunk_long [] hb = absurd hb
chunk_long (c ∷ b) hb = omega arith

pub front_text-IsChunk :
    (text : Bytes) (kids : Nodes) (indent : ℕ)
    → is_bare text kids ≡ false
    → IsChunk (front_text text kids indent)
front_text-IsChunk [] no_nodes indent e = absurd (ground (arith, e))
front_text-IsChunk (c ∷ text) no_nodes indent e =
    subst IsChunk (append-nil (escape_text (c ∷ text))) (
      IsChunk-append (escape_text (c ∷ text)) [] (escape_text-All (c ∷ text)) tt
        (omega (arith, length-escape_text (c ∷ text))))
front_text-IsChunk text (more_nodes n kids) indent e =
    IsChunk-append (escape_text text) (10 ∷ spaces (indent + 2)) (escape_text-All text)
      (refl, spaces-All (indent + 2)) (omega arith)

pub flush_front :
    (h : Head) (kids : Nodes) (indent : ℕ)
    → IsPlainHead h
    → flush_text_buffer trim_and_discard_empty
        (front_text h.text kids indent)
        (started h.name h.attributes)
      ≡ h
unfolding is_space
flush_front h no_nodes indent hp =
    ap (λ x. flush_text_buffer trim_and_discard_empty x (started h.name h.attributes))
      (sym (append-nil (escape_text h.text)))
    ∙ flush_lem h.name h.attributes h.text [] hp.trimmed tt
    ∙ plain_head h hp
flush_front h (more_nodes n kids) indent hp =
    flush_lem h.name h.attributes h.text (10 ∷ spaces (indent + 2)) hp.trimmed
      (refl, spaces-IsBlank (indent + 2))
    ∙ plain_head h hp

pub shorter :
    (h : Head) (kids : Nodes) (indent : ℕ) (r : Bytes) (fuel : ℕ)
    → is_bare h.text kids ≡ false
    → length (tag (element h kids) indent r) ≤ suc fuel
    → length (front_text h.text kids indent ++ tags kids indent h.name r) < fuel
unfolding tag
shorter h kids indent r fuel e lt =
    let inner = front_text h.text kids indent ++ tags kids indent h.name r in
    let tag_size = length-append h.name (attributes_text h.attributes ++ b'>' ∷ inner) in
    let rest_size = length-append (attributes_text h.attributes) (b'>' ∷ inner) in
    let size : length (tag (element h kids) indent r)
        ≡ suc (length (h.name ++ (attributes_text h.attributes ++ b'>' ∷ inner))) =
      rw e refl in
    omega (arith, lt, size, tag_size, rest_size)
