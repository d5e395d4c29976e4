-- ===== src/Text.antt =====
-- What the program uses of Go's strings: byte sequences, their comparison and the functions of the
-- packages strings and strconv. The functions by family stand in the modules below.
mod Bytes
pub mod Affix
pub mod Split
pub mod Fields
pub mod Decimal
pub mod Duration
pub mod Order
unfoldable pub use Bytes.{Text, codes, same}
pub use Bytes.{same_iff, same_refl, text_discrete}
