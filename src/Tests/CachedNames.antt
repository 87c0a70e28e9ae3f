-- ===== src/Tests/CachedNames.antt =====
-- The names of a block's files, and the entries that cache them.
use blockstorageingestor.Prelude.{
  pos, ◌≡◌, refl, ◌↔◌, ◌⊎◌, true, false, Option, none, some, List, arith, nat_beq, nat_eq, length,
  Str, codes, str_beq, str_eq,
}
use blockstorageingestor.Go.Strings.{behind, has_suffix, split, join}
use blockstorageingestor.Go.FilePath.{base, dir, clean}
use blockstorageingestor.Tsdb.Config.BucketCaches.{ChunksCacheConfig, MetadataCacheConfig}
use blockstorageingestor.Tsdb.CachingBucket.Create.{Entry, CachingLibrary, create_caching_bucket}
use blockstorageingestor.Tsdb.CachingBucket.Create.Outcomes.{IsFor, create_caching_bucket_lem}
use blockstorageingestor.Tsdb.CachingBucket.{create_cache}
use blockstorageingestor.Errors.{Error, ok, err, wrap}
use blockstorageingestor.Tsdb.CachingBucket.Names.{
  FileNames, is_tsdb_chunk_file, is_tenant_blocks_dir, is_block_index_file, is_chunks_dir,
}
use blockstorageingestor.Tsdb.CachingBucket.Names.Laws.{
  IsChunkName, is_tsdb_chunk_file-IsChunkName, IsTenantDir, is_tenant_blocks_dir-IsTenantDir,
}
use blockstorageingestor.Tsdb.CachingBucket.Names.Apart.{IsFileNames}
use blockstorageingestor.Tests.Caches.{cache_library, cache_clients, redis_backend}

-- identifiers of three letters
abbrev file_names : FileNames
file_names = record {
  meta_filename = codes "meta.json";
  deletion_mark_filename = codes "deletion-mark.json";
  index_filename = codes "index";
  is_ulid = λ s. nat_beq (length s) 3;
}

file_names-IsFileNames : IsFileNames file_names
file_names-IsFileNames = record {
  meta_filename-Lacks = omega arith;
  deletion_mark_filename-Lacks = omega arith;
  index_filename-Lacks = omega arith;
  index_not_meta = cc;
  index_not_mark = cc;
  index_not_tenant_mark = cc;
  meta_not_bucket_index = cc;
  mark_not_bucket_index = cc;
}

abbrev chunk : Str
chunk = codes "u/01A/chunks/000001"

chunk_test : is_tsdb_chunk_file chunk ≡ true
unfolding is_tsdb_chunk_file behind
chunk_test = refl

index_test : is_block_index_file file_names (codes "u/01A/index") ≡ true
unfolding is_block_index_file has_suffix str_beq base dir clean split join
index_test = refl

chunks_dir_test : is_chunks_dir (codes "u/01A/chunks") ≡ true
unfolding is_chunks_dir str_beq has_suffix
chunks_dir_test = refl

is_tsdb_chunk_file-IsChunkName_example : (is_tsdb_chunk_file chunk ≡ true) ↔ IsChunkName chunk
is_tsdb_chunk_file-IsChunkName_example = is_tsdb_chunk_file-IsChunkName chunk

is_tenant_blocks_dir-IsTenantDir_example :
    (is_tenant_blocks_dir (codes "u/") ≡ true) ↔ IsTenantDir (codes "u/")
is_tenant_blocks_dir-IsTenantDir_example = is_tenant_blocks_dir-IsTenantDir (codes "u/")

abbrev pub chunks_cache : ChunksCacheConfig cache_library
chunks_cache = record {
  cache_backend = redis_backend;
  subrange_size = pos 16000;
  max_get_range_requests = pos 3;
  attributes_ttl = pos 168;
  subrange_ttl = pos 24;
}

abbrev pub metadata_cache : MetadataCacheConfig cache_library
metadata_cache = record {
  cache_backend = redis_backend;
  tenants_list_ttl = pos 15;
  tenant_blocks_list_ttl = pos 5;
  chunks_list_ttl = pos 24;
  metafile_exists_ttl = pos 2;
  metafile_doesnt_exist_ttl = pos 5;
  metafile_content_ttl = pos 24;
  metafile_max_size = pos 1048576;
  metafile_attributes_ttl = pos 168;
  block_index_attributes_ttl = pos 168;
  bucket_index_content_ttl = pos 5;
  bucket_index_max_size = pos 1048576;
}

-- A bucket with the entries by which it caches, if it is a caching bucket.
abbrev caching : CachingLibrary Str
caching = record {
  Client = Option (List (Entry Str));
  new_tracing_cache = λ c. c;
  new_caching_bucket = λ bkt cfg. ok (some cfg);
}

create_caching_bucket_lem_example :
    let C = cache_library in
    let got =
      create_caching_bucket file_names C cache_clients caching chunks_cache metadata_cache none in
    let chunks = create_cache C cache_clients (codes "chunks-cache") redis_backend in
    let metadata = create_cache C cache_clients (codes "metadata-cache") redis_backend in
    ((false ≡ true) × (got ≡ ok none))
    ⊎ ((e : Error) × (chunks ≡ err e) × (got ≡ err (wrap e (codes "chunks-cache"))))
    ⊎ ((e : Error) × ((c : Option Str) × (chunks ≡ ok c))
        × (metadata ≡ err e)
        × (got ≡ err (wrap e (codes "metadata-cache"))))
    ⊎ ((false ≡ false)
        × ((entries : List (Entry Str)) × (got ≡ ok (some entries))
            × IsFor file_names file_names-IsFileNames C cache_clients caching chunks_cache
                metadata_cache true true entries))
unfolding str_beq
create_caching_bucket_lem_example =
    create_caching_bucket_lem file_names file_names-IsFileNames cache_library cache_clients caching
      chunks_cache metadata_cache none
