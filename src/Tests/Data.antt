-- ===== src/Tests/Data.antt =====
-- The buckets, encodings and names of the runs.
use blockstorageingestor.Prelude.{
  ℤ, pos, negsuc, at_most, above, ℕ, zero, suc, ◌+◌, ◌-◌, ◌*◌, ◌/◌, ◌%◌, ◌^◌, ◌≤◌, ◌<◌, ◌≡◌, refl,
  sym, ap, ◌∙◌, ◌≢◌, ◌↔◌, ◌⊎◌, inl, inr, Bool, true, false, not, ◌&&◌, ◌||◌, Option, none, some,
  List, [], ◌∷◌, ◌++◌, map, append-nil, append_assoc, arith, ltb, leb, nat_beq, nat_beq_iff,
  if◌then◌else◌, Comparable, ◌==◌, nat_eq, Bool-cases, Option-cases, length, get_elem?, take, drop,
  length-append, contains, All, All-append, Lacks, select, get_elem?-append, Str, codes, str_beq,
  str_beq_iff, str_eq, str_beq_refl, str_beq-append,
}
use blockstorageingestor.Errors.{Result, ok, err, foreign}
use blockstorageingestor.Encoding.{Json, Gzip, IsJsonCodec, IsGzipCodec}
use blockstorageingestor.Objstore.{Reader, bytes_reader}
use blockstorageingestor.Objstore.Lawful.{IsFresh}
use blockstorageingestor.Objstore.Memory.{memory}
use blockstorageingestor.Go.FilePath.{base}
use blockstorageingestor.Go.FilePath.Laws.{IsPlain}
use blockstorageingestor.Bucket.S3.Config.{Library}
use blockstorageingestor.Bucket.S3.Config.Laws.{IsMembership}
use blockstorageingestor.Bucket.S3.Retries.{Backoff}
use blockstorageingestor.Bucket.S3.Retries.Laws.{IsBackoff}
use blockstorageingestor.Bucket.Sse.{TenantConfigProvider}
use blockstorageingestor.Tsdb.BucketIndex.Markers.{BlockFormat, IsBlockFormat, markers_pathname}
use blockstorageingestor.Tsdb.BucketIndex.Storage.{IndexFormat}

pub strings_differ : (a b : Str) → str_beq a b ≡ false → a ≢ b
strings_differ a b h e =
    let t : str_beq a b ≡ true = (str_beq_iff a b).1 e in let no : ⊥ = ground arith in no

-- A library of which a key is written as the encryption.
abbrev pub library : Library
library = record {
  strings_contain = contains;
  Map = Str;
  unmarshal = λ t. ok (some t);
  ServerSide = Str;
  new_sse = codes "sse";
  new_sse_kms = λ k m. ok k;
  Transport = Unit {0};
}

pub library-IsMembership : IsMembership library
library-IsMembership l s = refl

abbrev pub with_sse : memory.Context → Str → memory.Context
with_sse ctx key = some key

-- A tenant's encryption with its own key.
abbrev pub provider : TenantConfigProvider
provider = record {
  s3_sse_type = λ u. codes "SSE-KMS";
  s3_sse_kms_key_id = λ u. u;
  s3_sse_kms_encryption_context = λ u. [];
}

abbrev pub alice : Str
alice = codes "alice"

abbrev pub bob : Str
bob = codes "bob"

pub alice-ne-bob : alice ≢ bob
alice-ne-bob = cc

pub alice-IsPlain : IsPlain alice
alice-IsPlain = record { not_empty = cc; not_dot = cc; not_dot_dot = cc; lacks = omega arith }

pub bob-IsPlain : IsPlain bob
bob-IsPlain = record { not_empty = cc; not_dot = cc; not_dot_dot = cc; lacks = omega arith }

pub IsFresh-unread_text : (r : Reader) (c : Str) → IsFresh r c → r.unread ≡ ok c
IsFresh-unread_text r c (inl e) = ap (λ (r : Reader). r.unread) e
IsFresh-unread_text r c (inr e) = ap (λ (r : Reader). r.unread) e

-- Texts stand for themselves.
abbrev pub text_json : Json Str
text_json = record { marshal = λ t. ok t; decode = λ r. r.unread }

pub text_json-IsJsonCodec : IsJsonCodec text_json
text_json-IsJsonCodec = record { round_trip = λ t. (t, refl, λ r f. IsFresh-unread_text r t f) }

-- A compression that keeps the text.
unfoldable pub opened : Result Str → Result Reader
opened (ok t) = ok (bytes_reader t)
opened (err e) = err e

abbrev pub stored_gzip : Gzip
stored_gzip = record {
  Writer = Str;
  new_writer = [];
  with_name = λ w n. w;
  write = λ w t. ok t;
  close = λ w. ok w;
  new_reader = λ r. opened r.unread;
}

pub stored_gzip-IsGzipCodec : IsGzipCodec stored_gzip
unfolding opened
stored_gzip-IsGzipCodec = record {
  round_trip = λ name t.
      (t, refl, (t, refl, λ r f. (bytes_reader t, rw (IsFresh-unread_text r t f) refl, inl refl)));
}

abbrev pub index_format : IndexFormat
index_format = record {
  Index = Str;
  json = text_json;
  gzip = stored_gzip;
  index_filename = codes "bucket-index.json";
  index_compressed_filename = codes "bucket-index.json.gz";
}

-- Two blocks.
pub data Block : Type 0 where
  block_a block_b : Block

abbrev pub block_name : Block → Str
block_name block_a = codes "01A"
block_name block_b = codes "01B"

unfoldable pub parse_block : Str → Option Block
parse_block s =
    if s == codes "01A" then some block_a else if s == codes "01B" then some block_b else none

abbrev pub block_format : BlockFormat
block_format = record {
  ULID = Block;
  to_string = block_name;
  parse = parse_block;
  is_block_dir = λ p. parse_block (base p);
  deletion_mark_filename = codes "deletion-mark.json";
  no_compact_mark_filename = codes "no-compact-mark.json";
}

plain_name : (b : Block) → IsPlain (block_name b)
plain_name block_a = record { not_empty = cc; not_dot = cc; not_dot_dot = cc; lacks = omega arith }
plain_name block_b = record { not_empty = cc; not_dot = cc; not_dot_dot = cc; lacks = omega arith }

parsed_name : (b : Block) → parse_block (block_name b) ≡ some b
unfolding parse_block blockstorageingestor.Prelude.str_beq
parsed_name block_a = refl
parsed_name block_b = refl

no_dash : (b : Block) → Lacks b'-' (block_name b)
no_dash block_a = omega arith
no_dash block_b = omega arith

marks_beq : str_beq (codes "deletion-mark.json") (codes "no-compact-mark.json") ≡ false
unfolding str_beq
marks_beq = refl

pub no_markers : (id : Block) → block_name id ≢ markers_pathname
no_markers block_a = cc
no_markers block_b = cc

pub block_format-IsBlockFormat : IsBlockFormat block_format
block_format-IsBlockFormat = record {
  parse-to_string = parsed_name;
  to_string-IsPlain = plain_name;
  to_string-Lacks = no_dash;
  is_block_dir-base = λ p. refl;
  deletion_mark-IsPlain = record {
    not_empty = cc;
    not_dot = cc;
    not_dot_dot = cc;
    lacks = omega arith;
  };
  no_compact_mark-IsPlain = record {
    not_empty = cc;
    not_dot = cc;
    not_dot_dot = cc;
    lacks = omega arith;
  };
  marks_differ = strings_differ _ _ marks_beq;
}

abbrev attempts : ℕ → Option ℕ
attempts zero = none
attempts (suc n) = some (suc n)

-- A backoff that counts down, or goes on: `none` is one that was made with 0.
abbrev pub countdown : Backoff (Option Str)
countdown = record {
  Retries = Option ℕ;
  new = λ ctx lo hi. attempts;
  ongoing = goes;
  wait = less;
  err = λ r. some (foreign 1);
}
  where
    goes : Option ℕ → Bool
    goes none = true
    goes (some n) = ltb 0 n

    less : Option ℕ → Option ℕ
    less none = none
    less (some zero) = some zero
    less (some (suc n)) = some n

abbrev HasLeft : ℕ → Option ℕ → Type 0
HasLeft k none = ⊥
HasLeft k (some n) = k ≡ n

new-HasLeft : (n : ℕ) → 0 < n → HasLeft n (attempts n)
new-HasLeft zero h = let no : ⊥ = omega arith in elim no [ ]
new-HasLeft (suc n) h = refl

wait-HasLeft :
    (k : ℕ) (r : Option ℕ)
    → HasLeft k r
    → countdown.ongoing r ≡ true
    → (j : ℕ) × (k ≡ suc j) × HasLeft j (countdown.wait r)
wait-HasLeft k none h o = elim h [ ]
wait-HasLeft k (some zero) h o = let no : ⊥ = cc in elim no [ ]
wait-HasLeft k (some (suc n)) h o = (n, h, refl)

pub countdown-IsBackoff : IsBackoff countdown
countdown-IsBackoff = record {
  HasLeft = HasLeft;
  new-HasLeft = λ ctx lo hi n. new-HasLeft n;
  wait-HasLeft = wait-HasLeft;
}
