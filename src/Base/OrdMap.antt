-- ===== src/Base/OrdMap.antt =====
-- `BTreeMap`: an association list in ascending order of its keys. The order of a key type is that
-- of its rank, a number that tells keys apart.
mod Laws
mod Ext
mod Count
mod Defs
pub use Laws.*
pub use Ext.*
pub use Count.*
unfoldable pub use Defs.*
