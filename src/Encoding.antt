-- ===== src/Encoding.antt =====
-- The encodings of Go's standard library that the stored objects use: packages `encoding/json` and
-- `compress/gzip`, as parameters, and what they promise together.
use blockstorageingestor.Prelude.{◌≡◌, nat_eq, Str, str_eq}
use blockstorageingestor.Errors.{Result, ok}
use blockstorageingestor.Objstore.{Reader}
use blockstorageingestor.Objstore.Lawful.{IsFresh}

-- `json.Marshal` and a decoder on a reader, at one type.
pub record Json (A : Type 0) : Type 0 where
  pub marshal : A → Result Str
  pub decode : Reader → Result A

-- `gzip.Writer` over a buffer, and `gzip.NewReader`. `close` gives what the buffer holds then.
pub record Gzip : Type 1 where
  pub Writer : Type 0
  pub new_writer : Writer
  pub with_name : Writer → Str → Writer
  pub write : Writer → Str → Result Writer
  pub close : Writer → Result Str
  pub new_reader : Reader → Result Reader

-- Every value can be encoded, and is decoded from its encoding.
pub record IsJsonCodec {A : Type 0} (J : Json A) : Type 0 where
  pub round_trip :
      (a : A) → (t : Str) × (J.marshal a ≡ ok t) × ((r : Reader) → IsFresh r t → J.decode r ≡ ok a)

-- Every text can be compressed, and a reader of the outcome reads that text.
pub record IsGzipCodec (G : Gzip) : Type 0 where
  pub round_trip :
      (name t : Str)
      → (w : G.Writer) × (G.write (G.with_name G.new_writer name) t ≡ ok w)
        × ((z : Str) × (G.close w ≡ ok z)
            × ((r : Reader)
                → IsFresh r z
                → (r' : Reader) × (G.new_reader r ≡ ok r') × IsFresh r' t))
