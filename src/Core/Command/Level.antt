-- ===== src/Core/Command/Level.antt =====
-- crates/core/src/command.rs: the extras, applied after every load and change of the settings.
use zj_radar.Prelude.PaneMap.{PaneMap}
use zj_radar.Core.Kind.{Kind}
