-- ===== src/Chain.antt =====
-- What every contract shares: packages/contracts/common/assembly and the chain below it.
mod Revert
mod Storage
mod Calls
mod Word
mod Allowance
pub mod Util
pub mod Actor
pub mod Lookup
pub use Revert.*
pub use Storage.*
pub use Calls.*
pub use Word.*
pub use Allowance.*
