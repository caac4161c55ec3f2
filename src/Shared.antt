-- ===== src/Shared.antt =====
-- What the execution workflow shares: typed errors (shared/errors.py), lookups in loosely typed
-- sources, integer checks and rounding.
mod Errors
mod Source
mod Rounding
unfoldable pub use Errors.*
unfoldable pub use Source.*
unfoldable pub use Rounding.*
