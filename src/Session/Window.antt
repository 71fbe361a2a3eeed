-- ===== src/Session/Window.antt =====
-- The receive window `rxcurrentWindow` as a map ordered by identifiers, whatever capsules come in.
use udm.World.{World, ◌>>◌}
