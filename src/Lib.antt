-- ===== src/Lib.antt =====
-- samconf, a library for configurations that are loaded from several places and merged, with a policy
-- on signatures.
--
-- The parts of the program and their models:
--   * Text: the functions of the C library on strings that the code calls (strtok_r, strsep, basename,
--     strcasecmp, strtoll). A string is the list of its bytes before the NUL.
--   * Status: samconfConfigStatusE_t of src/samconf/interface/samconf/samconf_types.h.
--   * Path: src/samconf/private/path_helper.c, paths as arrays of segments and back. Path/Segments
--     and Path/Until are about samconfPathCreateArray and samconfPathGetPathUntil, Path/Upward about
--     samconfPathGetPath.
--   * Config: the tree of samconf_types.h and the operations of src/samconf/private/samconf.c on
--     one node. Config/Get is samconfConfigGet with the typed getters; its `samconf_get` has the
--     crash of the code on a child without a key, its `config_get` gives the answers where there
--     is none, and Config/Get/Crash and Config/Get/Safe relate the two. Config/Insert is
--     samconfInsertAt with the functions samconfCreate...At, on trees in which no
--     samconfConfigGet crashes; Config/Insert/Safe says that they bring no crash to such a path,
--     and Config/Insert/Keyed that they keep a tree in which each node below the root has a key.
--     Config/FromString is about the values that are given as text, Config/Merge about
--     samconfConfigNext and the merges, Config/Delete about samconfConfigDelete as the blocks of
--     memory that it frees. Config/Tree holds the lemmas on positions, reads and writes.
--   * Store: the memory behind that tree, nodes at addresses that are linked by `parent` and `children`,
--     with samconfConfigAdd, samconfConfigGet, samconfInsertAt, samconfConfigNext, samconfConfigDelete
--     and samconfPathGetPath on pointers. Store/Laid says when a tree lies in memory; Store/Add is about
--     linking, Store/Lookup about the search, Store/Insert about insertion, Store/Onward about the walk,
--     Store/Freed about deletion, Store/Upward about the path of a node, and Store/Copy, with
--     Store/Members, about samconfCopyConfigValue. Where samconfConfigNew puts a node is a parameter.
--   * Signature: src/samconf/private/signature.c.
--   * Backend: src/samconf/private/config_backend.c and dummy_backend.c, and samconfLookupBackend.
--   * Json: src/samconf/private/json_backend.c, a backend.
--   * Uri: src/samconf/private/uri.c.
--   * Env: src/samconf/private/env_backend.c, a backend that reads the environment.
--   * Crypto: src/samconf/private/crypto_utils.c, the verification of a signature.
--   * Loader: samconfVerifySignature, samconfLoad and samconfLoadAndMerge, which use all of these: a
--     location is verified by its signature, a backend is chosen that loads a tree from it, and the
--     trees are merged one after the other into the first. Loader/Provenance is about which trees these
--     are, and Loader/Reached about chains of merges.
--   * System: these together, with the table samconfBackendOps of a build with both backends.
--     System/Enforced and System/Verified are about what is loaded where signatures are enforced,
--     System/Complete about a signed JSON file.
--   * Dump: samconfDumpConfigTree, as the text that it prints.
--   * Demo: the programs of src/demo over the library, from their arguments to the exit code and what
--     they print: Samprobe is samprobe.c, DumpConfig dump_config.c, DumpMerged dump_merged_config.c and
--     EnvExample env_example.c. In Samprobe the text of a real number is followed through its `free`.
--
-- Conventions. A tree is a data type, so that the links are consistent by construction; a pointer to a
-- node of a tree is its position, the child indices on the way from the root, and a write through it
-- is `modify_at`. Store has the functions that follow or write links a second time, on addresses, and
-- relates them to those on positions. The type of a node and the member of the union that it selects
-- are one value. A pointer that may be NULL is an Option, an output parameter a further result. A NULL dereference is a
-- value too (`none`, `fault` or `crash`, as the definition says; a load that crashes is `none`). A
-- double is its 64 bits. Integers that samconf stores are int64_t, of which the getter and json-c keep
-- the low 32 bits (`to_int32`); counts are natural numbers, since no count comes near the limits of
-- its type.
--
-- Fuel. The loop of samconfConfigMergeConfig has as much fuel as the tree that is merged has nodes, of
-- which each round visits another one; the digits of a number have the number as fuel. On pointers,
-- samconfConfigNext and samconfConfigDelete need as much fuel as the tree has nodes, and the loop of
-- samconfPathGetPath more than the node has ancestors. All other loops are structural.
--
-- Not modelled: the exhaustion of memory (allocation is taken to succeed), logging, and what is not in
-- this repository: the file system, the regular expressions of URIs, json-c, strtod, setenv, printf of
-- doubles and OpenSSL are parameters. Of the programs in src/demo the help texts and the clock are
-- arguments, and what goes to the standard error is left out. samconfPathDeleteArray, which only frees
-- memory, is left out, and samconfInitConfig, which returns 0.
pub mod Common
pub mod Text
pub mod Status
pub mod Path
pub mod Config
pub mod Signature
pub mod Backend
pub mod Loader
pub mod Json
pub mod Uri
pub mod Env
pub mod Crypto
pub mod Store
pub mod System
pub mod Dump
pub mod Demo
pub mod Tests
