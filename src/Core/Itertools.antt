-- ===== src/Core/Itertools.antt =====
-- src/core/itertools_helpers.py. An iterator is the list of the items that it has left, a
-- generator the list of what it yields, or the exception that ends it.
mod Batches
mod Windows
mod Groups
mod Views
unfoldable pub use Batches.*
unfoldable pub use Windows.*
unfoldable pub use Groups.*
unfoldable pub use Views.*
