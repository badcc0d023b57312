-- ===== src/Config/Env/Rows.antt =====
-- What `ApplyEnvOverrides` (src/config.cpp) asks for, and one row of its table.
use e_trace_diag.Prelude.{String, Option}
use e_trace_diag.Config.Defs.{Config}

-- `getenv`.
abbrev pub Environment : Type 0
Environment = String → Option String

-- A variable, and what its value does to a configuration.
abbrev pub Entry : Type 0 → Type 0
Entry Double = String × (String → Config Double → Config Double)
