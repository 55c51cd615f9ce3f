-- ===== src/Lib.antt =====
-- A verification of parts of sdb, a key-value store of strings over hash tables, constant
-- databases on disk and arrays and numbers in strings.
--
-- The parts and their files:
--
--   Base64 models src/base64.c: sdb_b64_encode, sdb_b64_decode, sdb_encode_raw, sdb_decode_raw,
--   sdb_encode and sdb_decode are b64_encode, b64_decode, encode_raw, decode_raw, encode and
--   decode. Base64/Block is about one block and Base64/RoundTrip about whole buffers.
--   Match models src/match.c, the matcher that sdb_match offers to the queries and the listing
--   of keys; a pattern may ask for the text to be decoded by Base64 first. globmatch_loop is
--   the loop of globmatch with its five pointers as what is left of the text and of the
--   pattern. parse_pattern reads the flags off a pattern. Match/Glob is about the globs,
--   Match/Substring about the plain comparisons, Match/Pattern about patterns once they are
--   read, Match/Ends and Match/Marks about reading the marks off a pattern.
--   Util models the hash of strings in include/sdb/sdb.h. Util/Bounds is about its size.
--   Ht models src/ht.inc.c, the table under the store. The record Options is the table of
--   callbacks in include/sdb/ht_inc.h, and the section parameters K and V are KEY_TYPE and
--   VALUE_TYPE. Ht/Sizes is about the growing sizes, Ht/Entries about one bucket, Ht/State
--   about well-formed tables and what they map a key to, Ht/Reserve about the slot of a new
--   entry, Ht/Write about the change of one entry, Ht/Contents about all entries, Ht/Grow,
--   Ht/Insert and Ht/Laws about the operations, Ht/Foreach about the walk over a table,
--   Ht/Change about the change of one key by a client of the table, and Ht/Faults about an
--   allocator that refuses.
--   HtKeys models the options and the sized constructor of src/ht_pp.c and src/ht_up.c.
--   SdbHt models src/ht.c, the tables of records of the store: an SdbKv is an entry whose value
--   has the text, cas and expire. SdbHt/Laws is about its insertions.
--   Dict models src/dict.c, the dictionary of numbers: the list of a bucket is its array up to
--   the key 0. Dict/Entries is about one bucket, Dict/State about well-formed dictionaries,
--   Dict/Store about storing an entry, Dict/Laws about the operations.
--   Core models src/sdb.c over the tables of SdbHt: the record Sdb is the table, the disk as
--   the lookups of src/cdb.c answer it, the generated lookup, whether records expire, and the
--   journal. sdb_set_internal is cut at its branches: new_record and add_record, replace_record
--   and overwrite_record. Core/Read is the lookups, Core/Ops the operations made of a lookup
--   and a set. Core/Spec says what a set makes of one record, and Core/Change is about how it
--   does, Core/Lookups about what a key then reads as, Core/Answers about what the lookups
--   answer and leave, Core/Reading about what a key reads as from the places where it is looked
--   for, Core/Exists about sdb_exists, Core/Faults about sets that are lost or refused,
--   Core/Uncat and Core/Appends about taking a text out of a value and putting one behind it.
--   Numbers models the numbers in strings of src/util.c, with the strtoull of the C library in
--   the C locale, and the kinds of values. Numbers/Digits and Numbers/Spelling are about what
--   sdb_itoa writes, Numbers/Reading about reading it back, Numbers/Octal about base 8.
--   KvMatch models sdbkv_match of src/sdb.c: match is match_expr, and KvMatch/Anchors is about
--   its anchors.
--   Num models src/num.c, and the operations of src/sdb.c on keys that are numbers.
--   Num/Counters is about storing, reading and incrementing a number.
--   Arrays models the arrays in strings of src/util.c. Arrays/Split is about the elements
--   between the commas, Arrays/Slice about parts of an array, Arrays/Compact about empty
--   elements.
--   Journal models src/journal.c over the bytes of the log, and Journal/Replay is about loading
--   a log that was written.
--   Buffer models src/buffer.inc.c: the bytes that wait and those that the file has. The record
--   Device says which writes and seeks are done. Buffer/Stream is about the two as one stream.
--   Cdb models the search of src/cdb.c in the bytes of a file, from its beginning
--   (cdb_findstart) on: match is compare_key, and cdb_findnext is cut into the bounds of the
--   table, the slots and the record of a slot. Its answers are those that Core takes of the
--   disk. Cdb/Bytes is about what stands where in a file.
--   CdbMake models src/cdb_make.c. The lists of entries of cdb_make are one list, and
--   cdb_make_finish is cut at its loops: running, scatter, fill with first_free, put_slots and
--   put_tables, which is given the number of slots that the memory has. CdbMake/State is about
--   what the state says of the records, CdbMake/Scatter about the entries of one table side by
--   side, CdbMake/Slots about filling and searching slots, CdbMake/Filled about the tables of
--   all records, CdbMake/Tables about the bytes that are written, CdbMake/Layout,
--   CdbMake/Records and CdbMake/Search about reading them, and CdbMake/RoundTrip about the
--   search in a file that was written.
--   Text models src/text.c. The file that is written is its bytes and whether all went well.
--   Text/Load models the loader: a token is a list where the code shifts characters inside the
--   buffer, a database is the path of its names from the root, and the record Target stands for
--   sdb_ns with its creation and for sdb_set. Text/Saving is about the text that is written,
--   Text/Tokens about escaping and Text/RoundTrip about loading what was saved.
--   Ls models src/ls.c: a list is the list of its data from the head on, its length, the
--   comparator it was sorted with last, by its address, and the flag. _merge, _sdb_list_split
--   and _merge_sort are merge, sdb_list_split and merge_sort. Ls/Sorted is about sorting,
--   Ls/Counts about the length.
--   Base holds the numbers, lists and C strings that they share, and Tests runs the theorems at
--   concrete inputs.
--
-- A string is the list of its bytes without the zero that ends it. A `char` is read as an
-- unsigned byte in comparisons of equality, where that makes no difference, and is widened with
-- its sign in the hash.
--
-- Fuel: globmatch runs on glob_fuel rounds, length a * (length b + 1) + length b + 1, since a
-- round shortens the pattern or moves the end of the run of a star. insert_kv and
-- internal_ht_grow call each other; ht_fuel is 1 below insert_update, and one more below
-- insert_kv, since a larger table does not fill up while the entries of a smaller one move to
-- it. uncat_loop runs on the length of the value and one round more, since a round takes out
-- one character at least; sdb_array_compact runs on two passes, since the first leaves nothing
-- for the second.
--
-- The loop of buffer_putalign runs on the number of bytes and two, since every round but the
-- first moves one; compare_key on the length of the key, the search of slots on their number,
-- as the code counts, and first_free on their number, which the theorem on filling shows to be
-- enough while one is free. The loops of sorting run on the lengths of the lists.
--
-- Bounds: the number of buckets is below 2^31 where a table may grow, since ht->size * 2 is a
-- 32-bit product; the input of the base64 decoder is short enough for ilen * 3 + 16 not to
-- overflow. Versions of records wrap around at 2^32 and numbers in the store at 2^64. A key of
-- SDB_KSZ characters or more and a value of SDB_VSZ or more are refused, as the code does.
--
-- An allocation is granted or not by the record Heap, and the theorems on the operations of the
-- table suppose that it is granted, but for those of Ht/Faults. The room of an array is kept
-- beside it, since the size that a bucket believes in may differ, and so is the number of
-- entries that a bucket without an array counts; of a store outside the array the model says
-- nothing. What the callbacks of the options do is in the record KeyLaws: being one key is an
-- equivalence, and the hash and the copy of a key respect it. In the store the copies of
-- strings that are handed out, and the larger room for a value that is overwritten, are always
-- granted. Writing and reading the journal do not fail; its size is taken into an int, as the
-- code does, and the theorem on the load supposes that it fits there with the zero behind it.
-- The state of a constant database that is written is not modelled behind a failure, where the
-- caller gives up or, with a record that is refused for its lengths, goes on with the state it
-- had. A text is saved in the order in which the listing hands records and databases out, and
-- the copy of a last line without a line feed is always granted. So are the links of a list,
-- and its data are never NULL.
--
-- Not modelled: releasing memory, the links of lists, the tables over cwisstable.h, a
-- third-party library, opening, mapping and reading files, a search in a constant database that
-- goes on behind an answer, the hooks, namespaces and locks of a store, its listing and
-- syncing, the expiry of records beyond its test in a lookup, the operations on arrays, the
-- query language, JSON and the command line.
pub mod Base
pub mod Base64
pub mod Match
pub mod Util
pub mod Ht
pub mod HtKeys
pub mod SdbHt
pub mod Core
pub mod Arrays
pub mod Numbers
pub mod Num
pub mod Journal
pub mod KvMatch
pub mod Dict
pub mod Buffer
pub mod Cdb
pub mod CdbMake
pub mod Text
pub mod Ls
pub mod Tests
