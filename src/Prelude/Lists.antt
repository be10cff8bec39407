-- ===== src/Prelude/Lists.antt =====
-- Lists measured and indexed by native numbers, under the library's names, and lists of numbers
-- searched by a Boolean test.
mod Basic
mod Search
mod Every
mod Find
pub use Basic.*
pub use Search.*
pub use Every.*
pub use Find.*
