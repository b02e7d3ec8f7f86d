-- ===== src/Lib.antt =====
-- ztok: its Python parts. The binding of the tokenizer library, the converter of vocabularies,
-- superposition plans, and the training pipeline that uses them.
--
-- The parts of the program and the modules that model them:
--
--   experiments/nanogpt_superposition/superposition/dataset_mapping.py: Mapping
--     `_validate` (Mapping.Validate), `relation_signatures` and `pair_decision` (Mapping.Decision),
--     `cluster_spans` (Mapping.Cluster), `build_superbatches` (Mapping.Candidates and
--     Mapping.Superbatch) and `build_dataset_superposition_plan` (Mapping.Plan). Spans of examples
--     are compared in pairs, pairs that fit are merged into clusters, pairs of examples that share
--     clusters become superbatches, and the plan counts the units before and after.
--   experiments/nanogpt_superposition/superposition/recovery.py: Recovery
--     `RecoverySchedule`: the phase of a run, and what follows from it.
--   experiments/nanogpt_superposition/config.py and models/common.py: Config
--     `TrainingConfig.validate` (Config.Training), `batch_size_at` and `training_shape_at`
--     (Config.Schedule), `ExperimentConfig.validate` and `ModelConfig.validate` (Config.Experiment).
--   experiments/nanogpt_superposition/dataset.py: Corpus
--     `PackedCorpus` (Corpus, Corpus.Sample) and `DeterministicBatchPrefetcher` (Corpus.Prefetch).
--   bindings/python/ztok/superposition.py: Binding
--     `build_semantic_plan` up to the native call (Binding.Semantic); `FixedSuperpositionConfig`,
--     `_materialize_plan` and `build_fixed_plan` (Binding.Fixed), over the objects with a handle
--     (Binding.Owner).
--   experiments/nanogpt_superposition/superposition/semantic_clusters.py: SafeCluster
--     `select_safe_cluster`: complete-link clusters of next-token candidates.
--   experiments/nanogpt_superposition/superposition/statement_primer.py: Primer
--     `_aligned_expansion` (Primer.Align), `statement_primer_batches` and
--     `collate_statement_primer_batch` (Primer.Batches).
--
--   bench/convert_tm_to_ztm.py, with the reader of src/monster_io.zig: Vocab
--     `parse_tm_vocab` and `main` (Vocab.Tm), the rune helpers (Vocab.Runes),
--     `compute_per_twin_alts` (Vocab.Alts), `write_ztm` (Vocab.Ztm, over the integers of Vocab.Wire)
--     and the native library's `readBytesMeta` (Vocab.Reader). A TokenMonster file is parsed into
--     info entries; these become tokens with aliases, and alternatives of twins; all of it is
--     written to a file that the native library reads.
--   bindings/python/ztok/__init__.py: Pipeline
--     The making and closing of the objects with a handle and `from_path` (Pipeline), encode,
--     decode_bytes, encode_with_overlays and ngram_hash (Pipeline.Calls), encode_batch, chunk and
--     ngram_hash_batch (Pipeline.Buffers), and encode_stream (Pipeline.Stream). Pipeline.Life has
--     the events in the life of an object as a step relation.
--   experiments/nanogpt_superposition/retrieve_structural_pairs.py: Retrieval
--     `structural_features`, `weighted_jaccard` and the loops of `main` that find the candidates and
--     choose disjoint pairs.
--
-- Common holds what these share: tests, lists, exceptions as values (Common.Exceptions), dictionaries
-- of lists, sorting, counting, and the interface of floats.
--
-- How the code is read:
--
--   Identifiers, offsets and counts are natural numbers. A float is an element of a type with the
--   operations of Common.Floats, of which only the documented order of values other than NaN is
--   assumed, and only where a theorem says so (`IsOrdered`); signed thousandths (Common.Milli) stand
--   in for floats in runs on small inputs. An exception is a value of `Result`, with the constant part
--   of its message. A set of numbers is a list without repetition; a dictionary of lists is an
--   association list in the order of insertion. Python's sort is a stable insertion sort by the
--   strict order that belongs to the sort's key. A field that the code checks with `isinstance` is a
--   `Scalar`. The table of documents has 64-bit entries, whose difference wraps around.
--
--   A file that is being read is the list of the bytes from the current offset on; a byte is a
--   number, and shifts and masks are products, quotients and remainders. The library's open handles
--   and live buffers are lists of addresses, passed through each call; a buffer that it has written
--   to is a function of the index. ctypes' 32-bit arguments wrap around.
--
--   Loops are recursions on a list or on a range, which need no fuel, but for these: the cutting of
--   a bucket into batches (`chunks_fuel`) has the bucket's length as fuel, that of a text into pieces
--   (`pieces`) the text's length, and the counting of a token's words (`count_words`) the token's
--   length, each enough since a round takes at least one element. The attempts of `encode` and
--   `ngram_hash` are bounded in the code, by eight and two.
--
-- What is a parameter: the similarity and the norms of embeddings, which PyTorch computes; the
-- states, draws and shuffles of random generators; `int(x)` on a float; tensor sums and largest
-- distances; the tokenizer; the native library's encoder and what its accessors return; the calls of
-- the native library that the binding makes; Python's Unicode tables. Hypotheses on them state
-- documented behaviour: draws lie in the asked range (`DrawsInRange`), a shuffle keeps the elements
-- (`Shuffles`), and the native library's encoder opens a handle on success only (`OpensOnSuccess`,
-- `Opened`), asks for a larger buffer or returns what it found (`Answers`), and hands out the buffers
-- that it reports (`HandsOut`, `ChunksHandOut`, `HandsIds`).
--
-- What is not modelled: the tensor programs of the models and losses, the training loop with its
-- files and telemetry, the scripts that prepare corpora or summarise runs, the declarations of the C
-- interface, the tokenizer itself, but for its reading of a vocabulary file, and the other languages'
-- bindings. A stream whose reader stops early is not modelled, nor are warnings on standard error, nor
-- inputs of encode_batch whose iteration has effects: they are a list.
-- The thread that runs a prefetch is not modelled as a thread: its computation reads only what was
-- fixed when it was submitted, so its outcome is part of the state.
pub mod Common
pub mod Mapping
pub mod Recovery
pub mod Config
pub mod Corpus
pub mod Binding
pub mod SafeCluster
pub mod Vocab
pub mod Pipeline
pub mod Retrieval
pub mod Primer
