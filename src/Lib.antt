-- ===== src/Lib.antt =====
-- Verification of the core of ASE, the abstract script engines.
--
-- The program lets scripts of several languages share values. A value is an ase_variant: a scalar, a
-- string, an array, a map of strings or an opaque object. Strings are UTF-8 inside and are converted
-- to and from UTF-16 at the borders of the engines. Values travel to other processes in a compact
-- binary form, in which an object goes by reference.
--
-- Which file models which part:
--   Variant.antt, Variant/Order.antt
--     ase/ase/ase.hpp: ase_vtype and `operator <` of ase_string. A variant is a data type with a
--     constructor for every type tag; an array is the list of its items, a map that of its fields.
--     Integers and doubles are the bit patterns of their widths.
--   StrMap.antt and StrMap/
--     ase/asestrmap.cpp: a std::map is the list of its entries, ascending by key. Order is about
--     the order of the keys, Laws about get_property and set_property, Enum about the enumerator, which is
--     the map and the last key that it gave.
--   Serialize.antt and Serialize/
--     ase/aseserialize.cpp: Encode and Decode hold the functions of the two halves. A string buffer is
--     the list of the bytes appended to it, a pair of pointers the list of the bytes between them,
--     and an exception an error of Result. The serializer and the deserializer of objects, which are
--     virtual calls of the source, are parameters. Lengths, Integers, Header and Values are about the
--     forms of single values, Received says what the reader gets, Arrays is about the
--     array that it makes, RoundTrip and Compact about whole values and messages, Total about the
--     end of the reader, Framing about the length found in the first bytes.
--   Utf.antt and Utf/
--     ase/aseutfconv.cpp, create_u16buffer and ase_utf16_string::init of ase/aseutf16.cpp, and
--     ase_string::init_16 of ase/asestr.cpp. A buffer is its list of units, an output buffer the room
--     that is left in it. Scalar defines the two encodings on their own; Widen, Narrow and Text are
--     about encoded texts, Valid about any input (Valid.Refused about where a conversion stops), Buffer
--     about the strings that are made.
--   Array.antt and Array/
--     ase/asearray.cpp: an array is the list of its elements, an ase_int its 32-bit pattern.
--   Search.antt and Search/
--     search_mem of ase/gtcpp/string_util.cpp and ase/gtcpp/horspool.cpp. Table is about the shifts,
--     Horspool about the search with them. The haystack is shorter than 2^32 bytes, as the unsigned
--     int of the source asks for.
--   KarpRabin.antt and KarpRabin/
--     ase/gtcpp/karp_rabin.hpp, for a hashval_type of 32 bits. KarpRabin holds the needles, the table and
--     the free list with their operations, Finding the search and the iterator over matches. Hash is
--     about the rolling hash, Sizes about the size of the table. Chains, Prevs, Buckets and Places are
--     about the links between the needles, Inserted and Register about a needle that comes in, and
--     Unlink, Unlinked, Moves, Neighbours, Removed and Unregister about one that goes. Windows and
--     Naive are about the searches. A loop over a chain of needles visits each once, so that their
--     number is its fuel.
--   Split.antt and Split/
--     split and join of ase/gtcpp/string_util.cpp.
--   Numbers.antt and Numbers/
--     the parsing and printing of numbers in ase/gtcpp/string_util.cpp. Value is about the parsers, Print
--     has snprintf into a space of 16 bytes for unsigned numbers, and Printed is about it.
--   Base64.antt and Base64/
--     ase/gtcpp/base64.cpp. Digits is about the code, RoundTrip about the decoding of an encoded text,
--     Bounds about the decoding of any bytes.
--   QuotedPr.antt and QuotedPr/
--     ase/gtcpp/quotedpr.cpp: RoundTrip is about encoded texts, Bounds about any bytes.
--   SmtpBody.antt and SmtpBody/
--     ase/gtcpp/smtp_common.cpp: Lines and Sent are about one line of a mail's body, RoundTrip about
--     the body.
--     Wire is about a sent line as its receiver reads it.
--   BufferedFile.antt and BufferedFile/
--     ase/gtcpp/buffered_file.cpp, and read_append of ase/gtcpp/file_util.cpp. The file is a state of any
--     type with read(2) as a parameter; Streams says what is relied on in it, and what the results of
--     read_line mean; Lines is about where a line ends, Searching about the place where the search goes
--     on, Reading about the loop. Files is a file that is a list of bytes.
--   SmtpServer.antt and SmtpServer/
--     ase/gtcpp/smtp_server.cpp: a connection of the mail server. SmtpServer holds the responses and the
--     parsing of a command's argument, Session the loop of smtp_server_worker::run with its handlers.
--     The callbacks, read(2) and write(2) are parameters; the state of the callbacks goes through them.
--     Progress, Turns and Ends are about the loop, Mail and Data about the transfer of a mail, which
--     joins BufferedFile, SmtpServer and SmtpBody, Ranges about the arguments of the callbacks.
--   StrBuf.antt and StrBuf/
--     ase/asestrbuf.cpp: a buffer is its memory and the number of the bytes in use; a fresh byte is a
--     parameter. Contents relates every operation to that of a list.
--   Prelude.antt and Prelude/
--     names, lemmas on lists and numbers, and the bitwise operations as arithmetic.
--
-- Bounds and fuel. The reader of the serialization is given twice the length of its input, plus one:
-- each call and each round of a loop takes a byte or ends (Serialize.Total). The conversions take as
-- much fuel as the input has units, since each turn reads one (Utf.Valid), and create_u16buffer one
-- turn more than that (Utf.Buffer.Bounds). The loop of byte_length_unsigned has `v` rounds for the
-- number `v`, which is at least its number of bytes. The loops of gtcpp take a byte or more in each
-- turn, and have the length of their input, plus one where the source tests once more, as fuel. A file is
-- read with fuel for more bytes than are to come, since each read that goes on brings one
-- (BufferedFile.Reading), and a connection served with fuel for more bytes than are unread, since each
-- turn takes a line (SmtpServer.Ends). The sizes are those of a 64-bit size_t, and the integers of the
-- source that wrap are written with their remainders: the length and the index of an array are an
-- ase_int and the length of a line that the mail server reads an int, both of 32 bits, and negative from
-- 2^31 on.
--
-- Not modelled: memory allocation and its failure, the reference counts, locks, sockets and threads, the timeouts,
-- the engines of the scripting languages, and the generated ASN.1 code.
pub mod Array
pub mod Base64
pub mod BufferedFile
pub mod KarpRabin
pub mod Numbers
pub mod Prelude
pub mod QuotedPr
pub mod Search
pub mod Serialize
pub mod SmtpBody
pub mod SmtpServer
pub mod Split
pub mod StrBuf
pub mod StrMap
pub mod Utf
pub mod Variant
