-- ===== src/Lib.antt =====
-- Verification of the core logic of sys-agent, a Nintendo Switch system module that answers commands on
-- a socket: controller sequences, memory searches and an instruction tracer. The sources are in
-- sys-agent/source.
--
-- Parts and their files:
-- * Sequence (sequence_repeat.c, sequence_token.c): a `clickSeq` sequence is expanded
--   (`sequenceExpand`, Sequence/Repeat and Sequence/Repeat/Expand) and the output is handed to the walker
--   that plays it (`sequenceTokenNext`, Sequence/Token). The output buffer, the token count, the
--   estimate and the flag of the stick tokens are the fields of `ExpandState`; the input is the list of
--   the bytes not yet read, with the position of the first.
-- * Trace (debug_trace_model.c, and the event ring of debug_trace.c): the parser of
--   snapshot specifications (Trace/Spec), the address of a snapshot (Trace/Address), the check of a
--   configuration and the lookup of a target (Trace/Config), and the ring of recorded
--   events (Trace/Ring: `recordEvent` and `debugTraceGetEvent`, each one step, as under its mutex).
-- * Search (search_range.c, search_value.c, search_compare.c, search_match.c, search.c): the
--   plan for a mapping (Search/Range), values (Search/Value, Search/Compare), the matcher
--   (Search/Match), and `runSearch` over all mappings of a range (Search/Run).
--   The kernel, the memory read and the requests to cancel are parameters of the sections.
-- * Store (search_store.c): the file of a search with unknown values, over its records (Store/Layout, Store/File), with
--   its checksums (Store/Crc). `Writer` and `Reader` are the structs of the same names with the file that they stand on;
--   the functions of the writer are in Store/Writer, of the reader in Store/Reader and Store/Reader/Addresses, the
--   packing of a block in Store/Payload, and the rest in Store/Commit, Store/Estimate and Store/Directory.
-- * Patch (patch_code.c): `patchCodeRun`, over what the kernel and its services answer (Patch/Kernel), which may depend on
--   all calls before. The waits are in Patch/Events, the transaction is in Patch/Run, its arguments and its result
--   are in Patch/Request.
-- * Config (boot_unlock_config.c, ftp_config.c): the parsers of two INI files, over the lines of
--   a text (Config/Ini), and their loaders, over what `fopen` and `fread` give.
--   Config/Hekate (hekate_config.c) finds a boot entry in the configuration of hekate, over the bytes of the file.
-- * Files (ftp_path.c): the mapping of FTP paths to the SD card, and what may be changed during a search.
-- * Memory (process_memory_select.c, result_check.c, fnv1a.c): the choice of a memory backend, a test of result
--   codes and the hash of a region.
-- * Jpeg (jpeg_dc.c): the decoder of a picture's brightness: its Huffman tables (Jpeg/Code), its readers and tables
--   (Jpeg/Tables), the markers up to the scan (Jpeg/Header) and the scan (Jpeg/Scan). `Answer` tells a refusal from
--   undefined behaviour, as a read behind an array, and from missing fuel.
-- * Freeze (freeze.c): the table of frozen addresses, with the buffers that were freed.
-- * Text (util.c, search.c): the parsers of numbers and of hexadecimal bytes in commands.
-- * Args (args.c): the words of a command line, by the `strtok` of the C library, and the buffers that are allocated for them.
-- * Libc (the C library): `isspace` and `strtoull` in the C locale, as the sources use them. Prelude: lists, bytes,
--   machine words and integers.
--
-- Numbers are natural numbers; where the source can wrap, the wrap is written out (`add_u64`, `% u32_mod`), and so is
-- the overflow of an int32_t in the JPEG decoder, which C leaves undefined. A text
-- is the list of its bytes in front of the terminator; a buffer that is written is a result.
--
-- Fuel: `expand_items` runs on fuel that `sequence_expand` sets from the length of its input, and `none` is
-- what is left without fuel; the loops of `runSearch` run on fuel that is at least one more than the number of
-- bytes of the range, since each round advances the cursor; the loops over the markers of a picture run on one more than the number of its
-- bytes, and the loop over the coefficients of a block on 64; the search for the first block of a page runs on 65, one more
-- than the halvings of a 64-bit number. All are proved to be enough. The waits and the events of `patchCodeRun` run on fuel
-- that the caller gives: the system decides how many there are, and the theorem that it returns says how many it may give.
--
-- Not modelled: what only calls the system libraries (debugger, services, sockets, threads, files), printing,
-- and the workers of the tracer, the searches and the boot unlock. `malloc` is assumed to give what is
-- asked for where no flag `allocated` says otherwise.
pub mod Prelude
pub mod Libc
pub mod Sequence
pub mod Trace
pub mod Search
pub mod Config
pub mod Files
pub mod Freeze
pub mod Memory
pub mod Text
pub mod Jpeg
pub mod Store
pub mod Patch
pub mod Args
