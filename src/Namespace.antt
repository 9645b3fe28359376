-- ===== src/Namespace.antt =====
-- crates/core/src/namespace.rs: what stands in the mirror. An identifier of a kind is its 128-bit
-- value (`Identifier.antt`).
pub mod Containers
pub mod EntryIds
pub mod Texts
pub mod Order
pub mod Entries
pub mod RoundTrip
pub mod Canonical
use elasticdms_desktop.Prelude.{ℕ}

pub data Container : Type 0 where
  root : Container
  baskets : Container
  basket : ℕ → Container
  archives : Container
  archive : ℕ → Container
  case : ℕ → ℕ → Container
  searches : Container
  search : ℕ → Container

-- Where a document stands: in a case file of an archive, or in a saved search.
pub data Location : Type 0 where
  case : ℕ → ℕ → Location
  search : ℕ → Location

pub data HintKind : Type 0 where
  read_me truncated : HintKind

pub data EntryIdentifier : Type 0 where
  container : Container → EntryIdentifier
  document : Location → ℕ → EntryIdentifier
  hint : Container → HintKind → EntryIdentifier
