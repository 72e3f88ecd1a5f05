-- ===== src/Lib.antt =====
-- libclod, a C library for NBT data, region files, hashing and compression, as a model with the
-- theorems that make its parts correct.
--
-- The program's parts, and the modules that model them:
--
-- * The hash table, src/table/table.c and include/clod/table.h: `Table`. `Table/Types` has the
--   structs, the size arithmetic and the control bytes, `Table/Probe` the search, `Table/Ops` the
--   operations. The two C arrays are functions from indices, an element that was never written
--   being `none`; that every index used is below `table_size` is part of the proofs
--   (`Table/ProbeLaws`, `Table/Search`). Pointers to elements are an abstract type, and the two
--   callbacks are fields of the options with the laws that the header file documents
--   (`Table/Valid`, `IsKeyed`). What the callbacks read behind a pointer is taken not to change.
--   A call that may allocate takes the answer of `malloc` as an argument; `free` is not modelled.
--   `assert` is the outcome `aborted`. `Table/Valid` has the abstract map (`view`) and the
--   invariant (`IsValid`), and `Table/Contract` the promises of the public operations.
--   The loop of `rebuild` has fuel `table_size + 1`: each round advances the iterator by at least
--   one cell. All size arithmetic wraps at 2 ^ 64; the invariant bounds the table size by 2 ^ 57
--   and the least capacity by 2 ^ 56, where nothing wraps.
-- * SipHash, src/hash/siphash.c: `Hash/Sip`. It is the default hash of the table. A byte string is a
--   list. `Paper` is SipHash 2-4 written out apart from the code, with the constant and the byte of
--   the length that the code has otherwise as parameters; `Reference` is what the code makes of a
--   whole message, `Stream` the invariant of a state after part of one, `Add` and `Whole` the calls. The loop of `add` has one round more as fuel than bytes.
-- * The cyclic redundancy checks, src/hash/crc.c: `Hash/Crc`. `Update` has the five updates,
--   `Table64` and `Tables` the tables of src/hash/crc_tables.h, and `Generate` their computation in
--   src/hash/crc_tables_generate.c, without the printing of C text. `Reflected` and `Forward` have the
--   division of a message by a polynomial one binary digit at a time, `ForwardTables` and `Divided`
--   the checks against it, from the laws of `Xor`.
-- * NBT, src/nbt/nbt.c and include/clod/nbt.h: `Nbt`. Memory is a function from addresses to chars,
--   `end` an address. `Types` has the type codes and sizes, `Size` the measuring of payloads and
--   tags, `Iter` the iteration over elements and the lookup, `Edit` the operations that write. `Format`
--   says what it is for memory to hold a tree, apart from the code. Sizes wrap at 2 ^ 64; an address
--   is a number without a bound. The recursion of `payload_size` has as fuel one more than the bytes up
--   to `end`, and so has each of its compound loops: on valid data nested payloads start further on
--   each, and each round takes at least three bytes. `compound_get` and the two compound operations
--   have the same fuel for their rounds, and shortening a list has one round more than its length.
--   `none` stands for fuel that ran out, which the theorems exclude for valid data.
-- * Big-endian numbers, include/clod/big_endian.h: `BigEndian`. One encoder and one decoder, with the
--   number of bytes as an argument, stand for the eight that the header writes out; `Signed` has the
--   signed ones, which convert and call them, by the table of the eight widths, and `Floats` the
--   floating-point ones, with the bits of a number as a parameter.
-- * Numbers and vectors, include/clod/vmath.h: `Vmath`. `Group` has `mask64` and `vec_group`, with
--   integers for `int64_t` and numbers below 2 ^ 64 for `uint64_t`, `Division` has `divi64`.
-- * Sized strings, include/clod/sstr.h: `Sstr`. Addresses in memory as for NBT, where the lookup
--   compares names with them.
-- * Compression, src/compression and include/clod/compression.h: `Compression`. The libraries'
--   functions are the fields of a record (`Library`), with what the code relies on of what they
--   document as hypotheses; what an allocation answers is among their arguments. `Support` says which
--   methods a build has, `Single` and `Streamed` have the methods of compress.c that call a library
--   once and in a loop, `Compress` the choice of the method. The loops (`Coder`) have as fuel any
--   number; `Ends` says how many rounds are enough. A level that is no
--   index of the array of compressors gives `none` for the methods that use it. `Inflate`, `Lz4`, `Decode` and
--   `Decompress` are the same for decompress.c, with the libraries of `Decoders`. The pointers `malloc_func` and `free_func`, the
--   four allocators that only pass them on, and what a library leaves in the room of a call that it
--   refused, are left out.
-- * File names of regions, src/region/filename.c: `Region/Filename`, with `strtoll` and the text of a
--   number as parameters.
-- * The options of regions, `read_opts` of src/region/region_open.c: `Region/Options`, whose steps are
--   the tests of the function in order. The libraries that the build found are a record of Booleans.
-- * The region storage, src/region: `Region`. `System` has the operating system as a record of
--   functions on a state of the world, any of which may fail at any call, and counts what the process
--   owes it: descriptors, mappings, blocks, directory streams. `close` and `munmap` count as giving
--   back whatever they answer. `File` and `Dir` are src/region/platform/unix, `RegionFile` is
--   region_file.c, `Cache` is file_cache.c, with the array as a list of slots and the round of the
--   loop as a function of its own, `Time` has its arithmetic on times, and `Handle` has
--   `clod_region_open`, `clod_region_read` and `clod_region_close`. A handle of a file is the struct
--   that it points to, with the address of its block. One thread calls the library; the counter
--   `inside` and the two locks are part of the state. `Cache/Lookup` has the abstract view of the
--   cache, `Cache/Unique` its invariant, the `Balance` modules what each part takes and gives back,
--   and `Handle/Session` a whole use of a region. The rounds of `dir_iter_next` are its fuel: one more
--   than the directory has entries are enough. There is at least one processor: the parameter is
--   how many more there are. `file_truncate` gives `none` where an assertion fails. `Format` has the header of region files, as far as
--   src/region/region_format and src/region/header.h have code for it.
--
-- `Prelude` has the helpers that the parts share: tests on numbers, C arrays, byte strings, bits,
-- results that may be missing.
--
-- Not modelled: the texts of messages and their printing (src/region/error.c), the functions that
-- include/clod/region.h declares and no file defines, and the locks of `platform.h` beyond the
-- counting of readers.

pub mod BigEndian
pub mod Compression
pub mod Hash
pub mod Nbt
pub mod Prelude
pub mod Region
pub mod Sstr
pub mod Table
pub mod Vmath
