-- ===== src/Go.antt =====
-- What the source uses of Go's packages `strings`, `path`, `path/filepath`
-- and `flag`.
pub mod Strings
pub mod Flags
pub mod FlagVars
pub mod FlagParser
pub mod Os
pub mod Sort
pub mod FilePath
