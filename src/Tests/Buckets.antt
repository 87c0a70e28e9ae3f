-- ===== src/Tests/Buckets.antt =====
-- Clients over the bucket in memory.
use blockstorageingestor.Prelude.{
  ℕ, ◌+◌, ◌≡◌, refl, ◌⊎◌, inr, true, false, Option, none, some, [], ◌++◌, arith, ltb, if◌then◌else◌,
  nat_eq, Str, codes, str_eq,
}
use blockstorageingestor.Errors.{Error, ok, err, wrap}
use blockstorageingestor.Objstore.{Reader, bytes_reader, bytes_buffer}
use blockstorageingestor.Objstore.Lawful.{IsReliable}
use blockstorageingestor.Objstore.Memory.{memory, memory_reading, memory-IsReliable, not_found}
use blockstorageingestor.Bucket.Prefixed
use blockstorageingestor.Bucket.Prefixed.{prefixed, new_prefixed_bucket_client, full_name}
use blockstorageingestor.Bucket.Prefixed.Laws.{
  prefixed_reading, prefixed-IsReliable, prefixed_isolated,
}
use blockstorageingestor.Bucket.Sse
use blockstorageingestor.Bucket.Sse.{
  SseBucketClient, new_sse_bucket_client, get_custom_s3_sse_config, sse_bucket,
}
use blockstorageingestor.Bucket.Sse.Laws.{sse_reading, sse_bucket-IsReliable}
use blockstorageingestor.Bucket.S3.Retries
use blockstorageingestor.Bucket.S3.Retries.{
  BucketWithRetries, Consumption, new_bucket_client, start, retry,
}
use blockstorageingestor.Bucket.S3.Retries.Laws.{Attempts, retry-Attempts}
use blockstorageingestor.Bucket.S3.Retries.Uploads.{upload-whole}
use blockstorageingestor.Bucket.Sse.Tenants.{IsRefused, upload-tenant}
use blockstorageingestor.Bucket.S3.Config.{parse_kms_encryption_context}
use blockstorageingestor.Tests.Data.{
  library, with_sse, provider, alice, bob, alice-ne-bob, alice-IsPlain, bob-IsPlain, countdown,
  countdown-IsBackoff,
}
use blockstorageingestor.Bucket.S3.Retries.Recovery.{GoesOn, now, later, retry-Recovers}
use blockstorageingestor.Exec.{Exec}
use blockstorageingestor.Errors.{foreign}

prefixed-IsReliable_example : IsReliable (prefixed memory) (prefixed_reading memory memory_reading)
prefixed-IsReliable_example = prefixed-IsReliable memory memory_reading memory-IsReliable

prefixed_isolated_example :
    let mine = new_prefixed_bucket_client memory true alice in
    let other = new_prefixed_bucket_client memory true bob in
    let view = (prefixed_reading memory memory_reading).view other in
    (view (Prefixed.upload memory mine none (codes "x") (bytes_buffer (codes "1")) []).1 (codes "x")
      ≡ view [] (codes "x"))
    × (view (Prefixed.delete memory mine none (codes "x") []).1 (codes "x") ≡ view [] (codes "x"))
prefixed_isolated_example =
    prefixed_isolated memory memory_reading memory-IsReliable true alice bob alice-ne-bob
      alice-IsPlain.lacks bob-IsPlain.lacks none (codes "x") (codes "1") (bytes_buffer (codes "1"))
      [] (codes "x") tt (inr refl)

sse_bucket-IsReliable_example :
    IsReliable
      (sse_bucket library memory with_sse)
      (sse_reading library memory with_sse memory_reading)
sse_bucket-IsReliable_example =
    sse_bucket-IsReliable library memory with_sse memory_reading memory-IsReliable

upload-tenant_example :
    let b = new_sse_bucket_client library memory with_sse alice true (some provider) in
    let n = codes "x" in
    let r = bytes_buffer (codes "1") in
    let uploaded = Sse.upload library memory with_sse b none n r [] in
    let type = codes "SSE-KMS" in
    let context = parse_kms_encryption_context library [] in
    ((type ≡ []) × (uploaded ≡ memory.upload true none n r []))
    ⊎ ((type ≡ codes "SSE-S3") × (uploaded ≡ memory.upload true (some (codes "sse")) n r []))
    ⊎ ((type ≡ type)
        × ((m : Option Str) × (c : Str) × (context ≡ ok m)
            × (library.new_sse_kms alice m ≡ ok c)
            × (uploaded ≡ memory.upload true (some c) n r [])))
    ⊎ ((e : Error) × IsRefused library memory with_sse provider alice e
        × (uploaded
            ≡ (err (wrap e (codes "unable to customise S3 SSE config for tenant " ++ alice)), [])))
upload-tenant_example =
    upload-tenant library memory with_sse provider alice true none (codes "x")
      (bytes_buffer (codes "1")) []

abbrev s3_client : BucketWithRetries memory countdown
s3_client = new_bucket_client memory countdown true

retry-Attempts_example :
    Attempts memory countdown {T = memory.State} tt
      (λ e. memory.is_obj_not_found_err true (some e))
      (memory.delete true none (codes "x"))
      5
      (start memory countdown s3_client none)
      none
      []
      (retry memory countdown s3_client none tt (memory.delete true none (codes "x")) [])
retry-Attempts_example =
    retry-Attempts memory countdown s3_client none tt (memory.delete true none (codes "x")) []
      countdown-IsBackoff (omega arith)

-- An upload that reads all of its reader.
abbrev consuming : Consumption memory
consuming = record { left = λ b ctx name r s. record r { unread = ok [] } }

-- A reader of which one byte has been read.
abbrev begun : Reader
begun = record { unread = ok (codes "2"); seek_start = some (ok (ok (codes "12"))) }

upload-whole_example :
    Retries.upload memory countdown consuming s3_client none (codes "x") begun []
    ≡ retry memory countdown s3_client none tt
        (memory.upload true none (codes "x") (bytes_reader (codes "12")))
        []
upload-whole_example =
    upload-whole memory countdown consuming (λ b ctx name r s. refl) s3_client none (codes "x")
      (codes "12") begun [] refl

-- An operation that counts its calls and fails twice.
abbrev flaky : Exec ℕ ℕ
flaky n = (if ltb n 2 then err (foreign 1) else ok n, n + 1)

goes_on : GoesOn countdown 5 (start memory countdown s3_client none)
unfolding start
goes_on = (refl, (refl, (refl, (refl, (refl, tt)))))

passing : memory.is_obj_not_found_err true (some (foreign 1)) ≡ false
unfolding blockstorageingestor.Objstore.Memory.is_not_found
passing = refl

retry-Recovers_example : retry memory countdown s3_client none 0 flaky 0 ≡ (ok 2, 3)
retry-Recovers_example =
    retry-Recovers memory countdown 0 flaky s3_client none 2 0 2 3 (omega arith) goes_on
      (later 1 0 (foreign 1) refl passing (later 0 1 (foreign 1) refl passing (now 2 refl refl)))
