-- ===== src/Bucket/Filesystem.antt =====
-- pkg/storage/bucket/filesystem: the options of a backend in local files, their flags and the client.
use blockstorageingestor.Prelude.{[], ◌∷◌, ◌++◌, nat_eq, Str, codes, str_eq}
use blockstorageingestor.Errors.{Result}
use blockstorageingestor.Go.FlagVars.{Registering, string_var, in_order}

pub record FilesystemConfig : Type 0 where
  pub directory : Str

unfoldable pub register_filesystem : Str → Registering FilesystemConfig
register_filesystem prefix = in_order (
    string_var (λ v c. record c { directory = v }) (prefix ++ codes "filesystem.cmd") []
      (codes "Local filesystem storage directory.")
    ∷ [])

-- `RegisterFlags`
abbrev pub register_filesystem_flags : Registering FilesystemConfig
register_filesystem_flags = register_filesystem []

-- `NewBucketClient`, with the constructor of Thanos
unfoldable pub new_filesystem_bucket :
    {Client : Type 0} → (Str → Result Client) → FilesystemConfig → Result Client
new_filesystem_bucket new_bucket cfg = new_bucket cfg.directory
