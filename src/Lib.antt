-- ===== src/Lib.antt =====
-- apisnap: a regression tester for HTTP and gRPC endpoints. A run fetches each configured endpoint,
-- masks what changes from run to run or is private in the JSON body, and either records the body as
-- a snapshot or compares it with the recorded one.
--
-- The parts, in the order in which a response passes through them, and their files:
--
--   Json                 `serde_json::Value`, the tree on which every part matches.
--   Config               src/config/config.rs: the settings that the other parts read.
--   Error                src/error.rs: `ApiSnapError` and its `exit_code`.
--   Engine/Masker        src/engine/masker.rs: `MaskContext::new` is `new_context`, and `mask_value` and
--                        its helpers have the source's names. Masker/Segments has the parsing and the
--                        matching of a rule's path, Masker/Luhn the check of card numbers,
--                        Masker/Secrets the scan for credentials. The regular expressions are the
--                        record `Patterns`.
--   Engine/JitRule       src/engine/jit_rule.rs: the prefix tree that `compile_rules` builds, and the
--                        machine code it emits, read as the function `eval_trie`; the engine's cache.
--   Engine/Differ        src/engine/differ.rs: `compare_json_ast` and `diff_recursive`. Floats and the
--                        Unicode normalization are parameters (`Numbers`, `nfc`).
--   Engine/BlastRadius   src/engine/blast_radius.rs: which consumers a difference reaches.
--   Storage/Merkle       src/storage/merkle.rs: the content-addressed object store. The disk is a
--                        record of operations (`Disk`), BLAKE3 and the reading of numbers are
--                        parameters; `ingest` and `reconstruct` pass the store on explicitly.
--   Storage/Timeline     src/storage/timeline.rs: an endpoint's commits, one line of its ledger each. A
--                        line is taken to be read as the commit that was printed, which holds of the
--                        callers' whole latencies.
--   Crypto               src/crypto/encryption.rs: the encryption of a snapshot at rest. AES-256-GCM is
--                        the record `Aes256Gcm`.
--   Snapshot/Store       src/snapshot/snapshot.rs: reading and writing snapshot files, whose types
--                        are in Snapshot/Files. The state is the directory `Dir`; the failures of a
--                        run are the argument `Io`.
--   Snapshot/Approvals   src/snapshot/approvals.rs: the ledger of approved differences.
--   Cli                  src/cli/commands.rs: Cli/Dispatch is `dispatch_requests`, with the ends of its
--                        tasks as an explicit sequence of events; Cli/Test is `handle_test`, and
--                        Cli/Record is `handle_record`, both without their printing.
--                        The responses are what the dispatch returns; `Round` has what the operating
--                        system, the random generator and the clock give in one round of a loop.
--                        Cli/Branches is `handle_test_branch_pointers`.
--   Storage/Pointer      src/storage/pointer.rs: the pointer files of branches.
--   Fuzz                 src/fuzz/mutator.rs and src/fuzz/engine.rs, with `handle_fuzz` of
--                        src/cli/commands.rs: Fuzz/Paths is `parse_json_path`, Fuzz/Edit the editing of
--                        a value at a path, Fuzz/Mutator `generate_mutations`, and Fuzz/Engine the calls
--                        and their verdicts. The executor is a function of the number of calls before.
--   Client/Auth          src/client/auth.rs: the providers, and in Client/Auth/Cache `get_valid_token` as
--                        the steps of concurrent tasks on one cache behind a lock. Times have no upper
--                        bound: the panic on an expiry beyond the range of an `Instant` is left out.
--   Openapi              src/openapi: Openapi/Infer is schema_infer.rs, Openapi/Generate generate.rs and
--                        Openapi/Verify verify.rs; `jsonschema` is the record `Validator`. What an
--                        inferred schema means is `accepts` of Openapi/Infer/Fits, where the texts that
--                        the validator takes for a format are a parameter.
--   Importer/Curl        src/importer/curl.rs: the arguments and the endpoint; Curl/Tokens
--                        has the tokenizer and Curl/Encode the encoder of the credentials.
--   Wasm/ShadowFilter    src/wasm/shadow_filter.rs: the comparison of two clusters' bodies.
--   Common               lists, texts, association lists, results, and tests that the parts share.
--   Witnesses            the theorems below applied to concrete data.
--
-- How they interact: the commands put the parts together. The masker calls the compiled rules and
-- falls back on its own matching; the differ's differences go to the blast radius and the timeline;
-- the timeline's commits refer to the object store's hashes; the snapshot store scans with the masker's
-- secret scan, encrypts with Crypto and ingests into the object store, whose disk is part of the
-- snapshot directory.
--
-- Bounds and fuel: hashes are numbers below 2^64 with the wrap written out. `diff_recursive` recurses
-- on fuel, one more than `max_depth`: its depth guard ends it before the fuel does. `reconstruct`
-- recurses on fuel, since it follows hashes: each one goes a level down the tree, so one more than the
-- nesting is enough. `mask_recursive` is structural, with the source's depth limit.
--
-- The command `fuzz` and the generated document recurse on the lists and trees that they walk, and a
-- run of the token cache is a list of steps of any length.
--
-- Not modelled: the transport (HTTP, gRPC, the recording proxy), the other commands and the parsing of
-- arguments, the terminal and pull-request reports, the telemetry, the eBPF capture, the importers of
-- HAR and Postman files, the rule learner, the SIMD parser and the shadow server. They call the parts
-- above, or have no state of their own, or only move bytes.
pub mod Common
pub mod Json
pub mod Error
pub mod Crypto
pub mod Engine
pub mod Config
pub mod Storage
pub mod Witnesses
pub mod Snapshot
pub mod Wasm
pub mod Cli
pub mod Fuzz
pub mod Client
pub mod Openapi
pub mod Importer
