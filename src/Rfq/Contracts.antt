-- ===== src/Rfq/Contracts.antt =====
-- modules/rfq/contracts.py: the DTOs of the execution boundary.
mod Statuses
mod Snapshots
mod Commands
mod Results
unfoldable pub use Statuses.*
unfoldable pub use Snapshots.*
unfoldable pub use Commands.*
unfoldable pub use Results.*
