-- ===== src/Namespace/EntryIds.antt =====
-- crates/core/src/namespace.rs: `impl EntryIdentifier`.
use elasticdms_desktop.Prelude.{ℕ, Option, none, some}
use elasticdms_desktop.Namespace.{Container, Location, EntryIdentifier}
use elasticdms_desktop.Namespace.Containers

-- `EntryIdentifier::ROOT`
abbrev pub root : EntryIdentifier
root = EntryIdentifier.container Container.root

-- `EntryIdentifier::parent`
unfoldable pub parent : EntryIdentifier → Option Container
parent (EntryIdentifier.container b) = Containers.parent b
parent (EntryIdentifier.document (Location.case archive case) _) =
    some (Container.case archive case)
parent (EntryIdentifier.document (Location.search k) _) = some (Container.search k)
parent (EntryIdentifier.hint location _) = some location

-- `EntryIdentifier::document`
unfoldable pub document : EntryIdentifier → Option ℕ
document (EntryIdentifier.document _ d) = some d
document _ = none

-- `EntryIdentifier::container`
unfoldable pub container : EntryIdentifier → Option Container
container (EntryIdentifier.container b) = some b
container _ = none
