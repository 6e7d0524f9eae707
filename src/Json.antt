-- ===== src/Json.antt =====
-- JSON values as src/*.cpp uses them: the tagged union of nlohmann::json, whose objects are
-- std::map from keys to values. The library itself is vendored and is not verified here.
mod Value
pub mod Access
pub mod Number
pub mod Text
pub use Value.*
unfoldable pub use Access.{lookup, insert, remove}
