-- ===== src/Lib.antt =====
-- The Rust implementation of c5store (c5store_rust/src), a store of configuration values.
--
-- At its start the program reads configuration files, merges them, and flattens the result into
-- values under dotted key paths. A section that names a value provider is taken out and handed to
-- that provider, which pushes values of its own. Values go through the closure `set_data_fn` into
-- the data store, which decrypts secrets as they are set; a change is recorded with the change
-- notifier, whose job later tells the subscribers of the key path and of the paths that lead to it.
-- Clients read the store, and subscribe to it, through its root or through branches. A manager
-- hydrates the value providers that clients set, once and then at a fixed rate, until it is dropped.
--
-- The files and the code that they model:
--   Value       c5store_rust/src/value.rs: `C5DataValue`, its conversions (Value/Convert with the
--               casts in Value/Casts) and its equality (Value/Equality); maps in Value/Map, paths
--               of keys in Value/Path, what the conversions keep in Value/Roundtrip, `as_bytes` in
--               Value/Bytes
--   Variables   c5store_rust/src/util.rs: `expand_vars`
--   MultiMap    c5store_rust/src/data.rs: `HashsetMultiMap`
--   Serialization  c5store_rust/src/serialization.rs: documents turned into values, by functions with
--               the names of the source
--   Secrets     c5store_rust/src/secrets.rs: decryptors and the store of keys; Secrets/Files has
--               `load_secret_key_files` of c5store_rust/src/lib.rs
--   DataStore   c5store_rust/src/internal.rs: `C5DataStore`, with `_get_secret` as `get_secret`
--   Subscriptions  c5store_rust/src/internal.rs: `C5StoreSubscriptions`
--   Telemetry   c5store_rust/src/telemetry.rs: `Logger` and `StatsRecorder` with their defaults; in
--               Telemetry/Observed the operations of `C5DataStore` once more, with each counter and
--               warning, under names that end in `_observed`
--   Notifier    c5store_rust/src/lib.rs: `ChangeNotifier`, its job as `run_job`
--   Merge       c5store_rust/src/lib.rs: `_merge` as `merge`, the loop over the files as `merge_files`;
--               Merge/Overlay and Merge/Config describe them on what is seen of a map
--   Flatten     c5store_rust/src/util.rs: `build_flat_map`; c5store_rust/src/lib.rs:
--               `_take_provided_data` as `take_provided`; Flatten/Leaves and Flatten/Sections list
--               what the walks are compared with
--   Providers   c5store_rust/src/providers.rs: schemas, and the table of the provider of file values,
--               whose `hydrate` stands in C5Store/Hydrate
--   Manager     c5store_rust/src/lib.rs: `C5StoreMgr`, with the job of a provider as `run_refresh`
--   C5Store     c5store_rust/src/lib.rs: the root, its branches, `set_data_fn`, `read_config_data`; with
--               the documents of the files in C5Store/ConfigFiles; `create_c5store`, its options and
--               `default_config_paths` in C5Store/Create; the trait `C5Store` in C5Store/Interface,
--               with the root and a branch as its two implementations
--   Base, Text and HashMap have what these share: outcomes of calls that may panic, byte strings,
--   and the standard library's `HashMap` as a list of entries in the order of iteration.
--   Crates has interfaces for the `skiplist`, `multimap` and `shellexpand` crates, and for the
--   documents and numbers of `serde_yaml` and `serde_json`: records of operations, with the laws that
--   the code relies on. Fixtures has an implementation of each, with its laws proved, and Tests has
--   runs of the code and of the theorems.
--
-- State and panics. An operation takes the state and returns it. A call that may panic returns an
-- `Outcome`, beside the state as it is at that point. A call of the data store or of the notifier
-- is one step: under a plain key it takes one lock and gives it back, while a secret takes the
-- locks of the cache of hashes and of the data one after the other, with nothing modelled in
-- between. Threads are the orders of steps: of the notifier in Notifier/Debounce, of `set_data_fn`
-- with its calls taken apart in C5Store/Threads, for two threads as a function of the order and in
-- C5Store/Threads/Many for any number as a relation. A guard of a `RefCell` is counted in the
-- cell, and borrowing panics as the standard library documents.
--
-- Order. A `HashMap` is a list of entries in the order of one run's iteration. What is seen of such a
-- map along paths of keys (Value/Seen) does not tell two orders apart; `Config` in Merge/Config is the
-- quotient of the maps by it. An array is a leaf there, with the maps in it as they stand. The order
-- in which `read_config_data` comes to the entries of the merged map and of `config_data` is the
-- `IterationOrder` of `read_config_files_in` and `create_c5store_in`: a function that reorders a map
-- and, by `IsLawfulOrder` in C5Store/SameFiles, loses and adds nothing. `create_c5store` itself is the
-- run that iterates in the order of the insertions.
--
-- Numbers. An `iN` is an integer and a `uN` a natural number, with the casts modulo 2 ^ N written
-- out; `usize` and `isize` have 64 bits. An `f64` is its bit pattern. All loops are structural: there
-- is no fuel.
--
-- Parameters: SHA-256, Base64, ECIES, the parsers of PEM keys, YAML and JSON, whether a mapping can be
-- made a `HashMap`, the byte order of the machine, the file system, the deserializers that a client
-- registers, the crates above, the documents that the configuration files hold, and the body of a
-- listener, of which the call is recorded; also the macros of the `log` crate, and how an error of a
-- decryptor prints. The thread pools run a scheduled job at any later step.
--
-- Not modelled: the log lines outside the data store, single calls of the traits in Telemetry; `Debug`
-- and the macro of data.rs; the derived serialization of values; the Java and JavaScript implementations.
pub mod Base
pub mod Text
pub mod HashMap
pub mod Value
pub mod Variables
pub mod MultiMap
pub mod Crates
pub mod Secrets
pub mod DataStore
pub mod Subscriptions
pub mod Telemetry
pub mod Notifier
pub mod Merge
pub mod Flatten
pub mod Providers
pub mod Serialization
pub mod Manager
pub mod C5Store
pub mod Fixtures
pub mod Tests
