-- ===== src/Config.antt =====
-- include/etrace_diag/config.h and src/config.cpp: the configuration, its defaults and `Sanitize`.
mod Defs
mod Sanitize
pub mod Texts
pub mod Env
pub mod EnvLaws
pub mod Ranges
pub mod Bounds
pub use Defs.{
  SampleTunables, WindowTunables, TargetWeights, TargetsTunables, DeviceTunables, ModelTunables,
  OutputTunables, MiscTunables, Config,
}
unfoldable pub use Defs.{default_config}
unfoldable pub use Sanitize.{sanitize}
