-- ===== src/Lib.antt =====
-- Verification library of jaytwo-library, a C++17 library of utilities (`j2_library`).
--
-- Parts. The components of the library are independent classes and families of free functions.
-- Paths are from the repository's root.
--   * StringBasic: j2_library/src/string/string_basic.cpp. A `std::string` is a list of bytes.
--     Its children are families of functions: Trim, Replace, Split (split, split_lines, join),
--     Affix (contains, starts_with, ends_with, common prefixes), Case, Shape (padding, quotes,
--     ellipsis) and Wildcard. A function keeps its name; the `split` of a char is `split_char`; a
--     function that changes its argument returns the new text; a loop is a helper whose name ends
--     in `_loop`.
--   * Text: what that file uses of `std::string` and <cctype>, in the "C" locale, and lists of
--     pieces between the occurrences of a token, which are the specification of splitting and
--     replacing.
--   * BitArray: j2_library/src/bit/bit_array.cpp. The class is a record of bytes and a bit count;
--     `concat` is operator+, `shift_left` and `shift_right` are operator<< and operator>>.
--   * Encoding: the conversions between UTF-16 and UTF-32 that j2_library/src/encoding/
--     encoding_function.cpp writes itself. A result of false is `none`.
--   * Queue: j2_library/include/j2_library/queue/concurrent_queue.hpp. Each method holds the
--     mutex while it works, so a run of the threads is a list of calls in the order in which they
--     get it. Queue/Waiters adds the threads that sleep on the condition variable, and
--     `notify_one`, as a step relation.
--   * Ini: j2_library/src/ini/ini_parser.cpp. The store of sections and entries with their
--     indexes, the setters, getters and removals, and in Ini/Escape the quotes and escapes of
--     strings. A `std::map` from names to positions is a function; a reference into a vector is a
--     position.
--   * Schedule: j2_library/src/schedule/weekly/schedule_normalizer.cpp. A weekday is its number,
--     and `std::sort` is an insertion sort by the same comparison. Schedule/Week says which
--     minutes a range means, apart from the code.
--   * Scheduler: j2_library/src/schedule/weekly/scheduler.cpp, `add_range` and `is_active_at_tm`.
--     Minutes are counted from one week before the source's zero, so that none is negative.
--   * U8String and U8Str: j2_library/src/string/u8string.cpp, the free functions (decoder,
--     encoder and conversions; both `to_u8_string` are `from_u32string` and `from_u16string`) and
--     the class `u8str`.
--   * Datetime: j2_library/src/datetime/datetime_util.cpp (digits, dates, formatter), and in its
--     children the two parsers of j2_library/src/datetime/datetime_string.cpp. Datetime/Gregorian
--     is the calendar and Datetime/Readings the text of a date, both apart from the code. The C library's
--     calendar is the record `Calendar`, a parameter. A position in a text is the text from there
--     on.
--   * Broker: j2_library/include/j2_library/broker/object_broker.hpp. The map from types and
--     names to objects is a list of entries, in the open order of the source's map; types are
--     without const, which `typeid` drops.
--   * Xml: j2_library/src/xml/xml_parser.cpp and xml.cpp. The position of the parser is the text
--     from there on, an exception is an error of `Result`, and a pointer to a node is the node.
--     Xml/Lexer and Xml/Parser are `xml_parser`, Xml/Serializer `serialize_xml`, Xml/Path and
--     Xml/Access the paths and the validator, Xml/Sax the traversals, Xml/Iso the time format,
--     Xml/Encoding the detection of the encoding and the files. Namespaces in scope are a list
--     with the later ones in front.
--   * Directory: j2_library/src/directory/directory_maker.cpp. `std::filesystem` is the record
--     `FileOps` over a state of the file system, which `create_directory_tree` passes on;
--     Directory/Laws says what is relied on.
--   * Multipart: j2_library/src/network/downloader/multipart_downloader.cpp. What curl delivers
--     is an argument, the calls on files are the record `PartStore`, and a position in the body
--     is the text from there on.
--   * Prelude: the libraries' names that all modules share, Boolean tests, lists and counted
--     loops.
--
-- Bounds and fuel. Lengths are natural numbers without a bound, but for the sum of offset and
-- length in `get` of the bit array and `mid` of `u8str` and the size of the vector in that `get`,
-- which wrap at 2^64. The loops of
-- replace and split have a round for each char of the text as fuel, and the days between two
-- weekdays seven rounds; the source's loop over them does not end for a day that is none. In the wildcard search a round takes a char off the text or off the
-- pattern, or sets the anchor one char further on, so the product of the lengths in `wild_fuel`
-- bounds the rounds. A decoder takes a byte at least in a round, and a round of the scheduler's
-- merge that goes on takes a range off the list. In the XML parser an attribute, a tag and a step
-- of an element's content take a char at least; a part of a multipart body takes its marker. The
-- other loops recurse on their text. Times are integers without a bound, for a year of four
-- digits fits 64 bits in milliseconds.
--
-- Not modelled. Console output (print, dump), number parsing by the C library, the file input and
-- output of the INI parser with its inline comments, the functions of the string file that deal
-- with UTF-8 and with digits of amounts; the present time and the time zones; the wide strings of
-- u8string.cpp; the texts of the directory maker's messages and the transfer by curl; and what
-- only calls the operating system or third-party libraries (encodings by iconv, cipher, the other
-- network classes, log, JSON, files).
pub mod Prelude
pub mod Text
pub mod BitArray
pub mod Broker
pub mod Datetime
pub mod Directory
pub mod Encoding
pub mod Ini
pub mod Multipart
pub mod Queue
pub mod Schedule
pub mod Scheduler
pub mod StringBasic
pub mod U8Str
pub mod U8String
pub mod Xml
