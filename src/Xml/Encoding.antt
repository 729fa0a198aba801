-- ===== src/Xml/Encoding.antt =====
-- The conversion to UTF-8 before the parser, and the files, in j2_library/src/xml/xml_parser.cpp. The
-- converter of the system (iconv or the Windows API) and the file system are parameters.
pub mod Detect
use jaytwo_library.Prelude.{
  Bool, true, false, not, ◌||◌, List, [], ◌∷◌, Option, none, some, Bytes, codes, map, if◌then◌else◌,
}
use jaytwo_library.Text.{str_eq}
use jaytwo_library.Xml.{
  TextPolicy, XmlNode, XmlError, file_missing, file_not_regular, read_failed, convert_failed,
  Result, thrown, returned, ◌>>=◌, ◌>>◌, throw_if,
}
use jaytwo_library.Xml.Parser.{parse}
use jaytwo_library.Xml.Encoding.Detect.{toupper, detect_xml_encoding}

abbrev pub is_utf8_name : Bytes → Bool
is_utf8_name encoding =
    str_eq (map toupper encoding) (codes "UTF-8") || str_eq (map toupper encoding) (codes "UTF8")

-- The file system: whether a path is there, whether it is a regular file, and its bytes.
pub record FileSystem : Type 0 where
  pub exists : Bytes → Bool
  pub is_regular_file : Bytes → Bool
  pub content : Bytes → Option Bytes

-- An error of a part is thrown as one about the file.
abbrev pub as_error : Result Bytes → XmlError → Result Bytes
as_error (returned text) error = returned text
as_error (thrown e) error = thrown error

unfoldable pub read_file_binary : FileSystem → Bytes → Result Bytes
read_file_binary files path = elim (files.content path) [
  | none ↦ thrown (read_failed path)
  | some text ↦ returned text
]

module _ (system_convert : Bytes → Bytes → Result Bytes) where
  unfoldable pub convert_text_encoding_to_utf8 : Bytes → Bytes → Result Bytes
  convert_text_encoding_to_utf8 input encoding =
      if is_utf8_name encoding then returned input else system_convert input encoding

  unfoldable pub convert_xml_to_utf8 : Bytes → Result Bytes
  unfolding detect_xml_encoding convert_text_encoding_to_utf8
  convert_xml_to_utf8 raw_xml =
      let encoding = detect_xml_encoding raw_xml in
      if is_utf8_name encoding
      then returned raw_xml
      else convert_text_encoding_to_utf8 raw_xml encoding

  unfoldable pub parse_with_auto_encoding : Bytes → TextPolicy → Result XmlNode
  unfolding convert_xml_to_utf8 parse
  parse_with_auto_encoding raw_xml policy =
      convert_xml_to_utf8 raw_xml >>= λ utf8_xml. parse utf8_xml policy

  unfoldable pub parse_file_with_auto_encoding : FileSystem → Bytes → TextPolicy → Result XmlNode
  unfolding read_file_binary parse_with_auto_encoding
  parse_file_with_auto_encoding files path policy =
      read_file_binary files path >>= λ raw_xml. parse_with_auto_encoding raw_xml policy

  -- `xml_parser::parse_file`.
  unfoldable pub parse_file : FileSystem → Bytes → TextPolicy → Result XmlNode
  unfolding read_file_binary convert_xml_to_utf8 parse
  parse_file files path policy = do
    throw_if (not (files.exists path)) (file_missing path)
    throw_if (not (files.is_regular_file path)) (file_not_regular path)
    raw_xml ← as_error (read_file_binary files path) (read_failed path)
    utf8_xml ← as_error (convert_xml_to_utf8 raw_xml) (convert_failed path)
    parse utf8_xml policy
