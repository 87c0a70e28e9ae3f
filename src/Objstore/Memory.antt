-- ===== src/Objstore/Memory.antt =====
-- A bucket kept in memory: an instance of the interface and of its laws, on which the theorems
-- about buckets are run.
mod Store
mod Laws
mod Listing
mod Entries
unfoldable pub use Store.*
pub use Laws.*
pub use Entries.*
