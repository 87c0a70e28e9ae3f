-- ===== src/Lib.antt =====
-- A verification library for the block storage ingester (Go): the clients through which it reaches
-- its object store, what it keeps there for each tenant, and the options that it is started with.
--
-- Parts, with the code that each models:
-- * Bucket/Prefixed (pkg/storage/bucket/prefixed_bucket_client.go): a client that puts a prefix
--   before every object's name; Bucket/Sse (sse_bucket_client.go): a client that asks for a
--   tenant's server-side encryption; Bucket/User (user_bucket_client.go): the two composed. One
--   function per method, and a value of the interface `objstore.Bucket` for each client.
-- * Bucket/S3/Config (s3/config.go, http/config.go) and Bucket/S3/ClientConfig (`newS3Config` of
--   s3/bucket_client.go): options, their validation and translation. Bucket/S3/Retries
--   (`BucketWithRetries` of s3/bucket_client.go): calls that are tried again; the reader of an
--   upload is part of the state of its attempts.
-- * Bucket/Client (pkg/storage/bucket/client.go): the choice of the backend and the middlewares.
--   Bucket/Gcs, Azure, Swift and Filesystem (the directories of those names beside client.go): the
--   options of the other backends, their flags and their translation for Thanos; Bucket/Backends:
--   these put together, with the flags of all; Bucket/S3/Flags: those of S3 and of its HTTP client.
-- * Bucket/DeletePrefix (pkg/storage/bucket/bucket_util.go): the deletion of a directory. A call
--   goes down once for each directory, and keeps its counter in the state of the callback.
-- * Bucket/Mock (pkg/storage/bucket/client_mock.go): the double of a bucket for tests, over the
--   expectations of testify (Bucket/Testify). Tsdb/TestBlocks (pkg/storage/tsdb/testutil): the helpers
--   that put blocks and marks into a bucket for a test, or make a bucket in a directory.
-- * Tsdb/DeletionMark (pkg/storage/tsdb/tenant_deletion_mark.go): the mark of a tenant to be
--   deleted; Tsdb/UsersScanner (users_scanner.go): the scan for tenants and their marks.
-- * Tsdb/BucketIndex/Markers (bucketindex/markers.go): where marks of blocks are kept;
--   GlobalMarkers (bucketindex/markers_bucket_client.go): the client that keeps copies of them, with
--   the places of marks (Places), one call of it over a store that may fail (Calls) and sequences of
--   calls as a step relation (Runs, Mirror);
--   Migration the migration of marks to their global place;
--   Storage (bucketindex/storage.go): the index of a tenant's blocks.
-- * Tsdb/Config (pkg/storage/tsdb/config.go) and its children Caches (memcache_client_config.go,
--   index_cache.go, caching_bucket.go), BucketCaches (the caches of chunks and of metadata),
--   BucketStore, CacheFlags and Flags (the flags), DurationList (the block ranges as the value of a
--   flag) and Bits (the test for powers of two): options. Tsdb/BlocksStorage (`BlocksStorageConfig`
--   of config.go): the options of all stores, their flags and their validation.
-- * Tsdb/CachingBucket (pkg/storage/tsdb/caching_bucket.go): `createCache` and the codec of listings;
--   its children Names (which files and directories are cached, with the two regular expressions as
--   functions) and Create (`CreateCachingBucket`, the configuration as a list of entries).
-- * Tsdb/IndexCache (index_cache.go, util.go): the constructors of the index cache, and the hash of a
--   block's identifier.
-- * Ingester/Config (pkg/blockstorageingester/blockstorageingester.go): the configuration of the
--   service, its flags and its validation, over the parts of Ingester/Parts; Ingester/Run: `Run`
--   from start to stop, the callback for a failed service, the handler of readiness. The world is the state that the manager of the
--   services, the router and the logger change; a call that blocks returns the world at its end.
-- * Command (cmd/blockstoreingester/main.go): Arguments the search for the flags of the
--   configuration file, Environment the references to variables in that file, Start the file's
--   loading and `main`, as the list of what the process does and how it ends.
-- * Objstore, the interface `objstore.Bucket` of Thanos as a record of operations that pass a
--   state, `Objstore.Lawful` what a reliable store does, `Objstore.Memory` a store in memory that
--   does it. Go: what the code uses of `strings`, `path`, `flag`, `os.Expand` and
--   `sort.SearchStrings`. Errors and Exec: Go errors as values, and code that changes a state and
--   may fail. Encoding: JSON and gzip.
--
-- How the parts interact: the marks, the index and the scan call a bucket through the record
-- `Bucket`; the clients are built over any bucket and are themselves buckets, so that they stack.
-- Theorems are stated over any bucket or, where the store's answers matter, over any reliable one.
--
-- Options are registered as the code does it: a registration changes the options and the set of
-- flags (Go/FlagVars), and one of a part runs inside the whole.
--
-- Outside the repository, and so parameters: the object store and its S3 client, JSON, gzip, block
-- identifiers and file names of marks (`BlockFormat`), the backoff of Cortex (`Backoff`), what an
-- upload reads of its reader (`Consumption`), the greatest slice that `make` accepts,
-- `util.StringsContain`, the packages whose configurations the service holds (`Cortex`), the manager
-- of services (`Services`), and the types whose files are empty in the repository (the bucket's index,
-- the options of Redis). Strings are lists of bytes; `int` and `time.Duration` are integers.
--
-- Fuel: the loop of `ScanUsers` runs on the number of listed users, since each round removes a user
-- or advances; the loop of retries runs on one more than the configured attempts, of which each
-- round uses one (with none configured the code would go on; the constructor configures 5);
-- `DeletePrefix` runs on the depth of its calls, each of which has a longer name
-- than its caller, and reports when the fuel has run out. The binary search of `sort.Search` runs on
-- the length of the list, and each round makes its interval shorter.
--
-- Not modelled: metrics and most log lines; what the caches of Thanos do with their entries;
-- the text that `DumpYaml` of cmd/blockstoreingester/main.go prints in the mode for tests;
-- panics of the parameters but for `prometheus.MustRegister` and `make`; running out of memory.
pub mod Prelude
pub mod Go
pub mod Errors
pub mod Exec
pub mod Objstore
pub mod Encoding
pub mod Bucket
pub mod Tsdb
pub mod Ingester
pub mod Command
mod Tests
