-- ===== src/Json.antt =====
-- The values of `json.loads`, and what the program does with a `dict[str, Any]`.
mod Document
mod Equality
mod Laws
unfoldable pub use Document.*
unfoldable pub use Equality.*
pub use Laws.*
