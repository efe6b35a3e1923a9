-- ===== src/Base/Text.antt =====
-- Go strings that the program walks: lists of code points, with the parts of package strings
-- that it uses on them.
mod Codes
mod Trim
mod Trimmed
mod Absolute
mod Split
mod Bytes
unfoldable pub use Codes.*
unfoldable pub use Trim.*
unfoldable pub use Trimmed.*
unfoldable pub use Absolute.*
unfoldable pub use Split.*
unfoldable pub use Bytes.*
