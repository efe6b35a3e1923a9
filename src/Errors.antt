-- ===== src/Errors.antt =====
-- Go `error` values as the layers build them, and the wrapping that each layer does.
mod Tree
mod Bus
mod Wrap
mod Tests
pub mod Laws
unfoldable pub use Tree.*
unfoldable pub use Bus.*
unfoldable pub use Wrap.*
