-- ===== src/Namespace/Containers.antt =====
-- crates/core/src/namespace.rs: `impl Container` and `From<Location> for Container`.
use elasticdms_desktop.Prelude.{Bool, true, false, Option, none, some}
use elasticdms_desktop.Namespace.{Container, Location}

-- `Container::parent`
unfoldable pub parent : Container → Option Container
parent Container.root = none
parent Container.baskets = some Container.root
parent Container.archives = some Container.root
parent Container.searches = some Container.root
parent (Container.basket _) = some Container.baskets
parent (Container.archive _) = some Container.archives
parent (Container.case archive _) = some (Container.archive archive)
parent (Container.search _) = some Container.searches

-- `Container::is_dynamic`
unfoldable pub is_dynamic : Container → Bool
is_dynamic Container.root = false
is_dynamic _ = true

-- `Container::accepts_new_files`
unfoldable pub accepts_new_files : Container → Bool
accepts_new_files (Container.basket _) = true
accepts_new_files _ = false

-- `Container::location`
unfoldable pub location : Container → Option Location
location (Container.case archive case) = some (Location.case archive case)
location (Container.search k) = some (Location.search k)
location _ = none

-- `Container::from`
unfoldable pub from_location : Location → Container
from_location (Location.case archive case) = Container.case archive case
from_location (Location.search k) = Container.search k
