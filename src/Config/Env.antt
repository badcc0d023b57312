-- ===== src/Config/Env.antt =====
-- `ApplyEnvOverrides` (src/config.cpp).
mod Rows
mod Sampling
mod Targets
mod Outer
pub use Rows.{Environment, Entry}
use e_trace_diag.Prelude.{
  String, Bool, true, false, List, [], ◌∷◌, ◌++◌, Option, some, none, map, u32,
}
use e_trace_diag.Config.Defs.{Config}
use e_trace_diag.Config.Texts.{
  Numerals, parse_u64 as parse_number, parse_d as parse_double, parse_bool, split_list,
}
use e_trace_diag.Config.Env.Sampling.{sample_entries, window_entries}
use e_trace_diag.Config.Env.Targets.{targets_entries}
use e_trace_diag.Config.Env.Outer.{devices_entries, model_entries, output_entries, misc_entries}

module _ {Double : Type 0} (lib : Numerals Double) where
  -- `kEntries`.
  unfoldable pub entries : List (Entry Double)
  unfolding sample_entries window_entries targets_entries devices_entries model_entries
      output_entries misc_entries
  entries =
      sample_entries lib
      ++ window_entries lib
      ++ targets_entries lib
      ++ devices_entries lib
      ++ model_entries lib
      ++ output_entries lib
      ++ misc_entries lib

  -- One override: the new configuration, and whether the variable was set.
  abbrev pub override :
      Option String
      → (String → Config Double → Config Double)
      → Config Double × Bool
      → Config Double × Bool
  override none f r = r
  override (some v) f (c, applied) = (f v c, true)

  unfoldable pub apply_entries :
      Environment → List (Entry Double) → Config Double × Bool → Config Double × Bool
  apply_entries env [] r = r
  apply_entries env ((name, f) ∷ es) r = apply_entries env es (override (env name) f r)

  -- The overrides by lists.
  unfoldable pub set_categories : String → Config Double → Config Double
  unfolding split_list
  set_categories v c = record c { misc = record c.misc { categories = split_list v } }

  unfoldable pub set_pinned : String → Config Double → Config Double
  unfolding split_list
  set_pinned v c = record c {
    targets = record c.targets { pinned = map (λ s. u32 (parse_number lib s 0)) (split_list v) };
  }

  -- The new configuration, and whether anything was set.
  unfoldable pub apply_env_overrides : Environment → Config Double → Config Double × Bool
  unfolding entries apply_entries set_categories set_pinned
  apply_env_overrides env c = override (env "ETRACE_DIAG_TARGETS_PINNED") set_pinned (
      override (env "ETRACE_DIAG_MISC_CATEGORIES") set_categories
        (apply_entries env entries (c, false)))
