-- ===== src/Xml/Plain.antt =====
-- Trees without namespaces whose texts are trimmed.
use jaytwo_library.Prelude.{ℕ, true, false, [], ◌∷◌, Bytes, codes, ◌==◌, ◌≡◌, All}
use jaytwo_library.Text.{str_eq}
use jaytwo_library.StringBasic.Trim.Laws.{IsTrimmed}
use jaytwo_library.Xml.{XmlAttribute, Head, XmlNode, element, Nodes, no_nodes, more_nodes}
use jaytwo_library.Xml.Text.{is_name_char}

-- A char of a name that is no `:`.
pub record IsNamePart (c : ℕ) : Type 0 where
  pub in_name : is_name_char c ≡ true
  pub no_colon : (c == b':') ≡ false

abbrev pub IsName : Bytes → Type 0
IsName [] = ⊥
IsName (c ∷ s) = IsNamePart c × All IsNamePart s

pub record IsPlainAttribute (a : XmlAttribute) : Type 0 where
  pub named : IsName a.name
  pub no_declaration : str_eq a.name (codes "xmlns") ≡ false
  pub no_prefix : a.prefix ≡ []
  pub no_uri : a.ns_uri ≡ []

pub record IsPlainHead (h : Head) : Type 0 where
  pub named : IsName h.name
  pub no_prefix : h.prefix ≡ []
  pub no_uri : h.ns_uri ≡ []
  pub trimmed : IsTrimmed h.text
  pub plain_attributes : All IsPlainAttribute h.attributes

unfoldable mutual
  pub IsPlain : XmlNode → Type 0
  IsPlain (element h kids) = IsPlainHead h × ArePlain kids

  pub ArePlain : Nodes → Type 0
  ArePlain no_nodes = Unit
  ArePlain (more_nodes n kids) = IsPlain n × ArePlain kids
