-- ===== src/Json.antt =====
-- Values of `json.loads`: what the program reads from and writes to trace records. Numbers are
-- integers; documents with fractions are outside the model. `loads` itself is a parameter of the
-- definitions that parse. An object is a Python dict: entries in insertion order, writing to a key
-- that is there keeps its place.
mod Objects
mod Arrays
mod Values
mod Encoding
mod Index
pub mod Laws
unfoldable pub use Values.*
unfoldable pub use Encoding.*
unfoldable pub use Objects.*
unfoldable pub use Arrays.*
unfoldable pub use Index.*
