-- ===== src/Tests/Settings.antt =====
-- An environment without overrides, and a list of three entries (src/config.cpp).
use Prim.Native.Char.{Char}
use e_trace_diag.Prelude.{ℕ, [], ◌∷◌, some, none, ◌≡◌, refl, arith}
use e_trace_diag.Config.Texts.{Numerals, split_list}
use e_trace_diag.Config.Env.{Environment, apply_env_overrides}
use e_trace_diag.Config.EnvLaws.{joined_after, apply_env_overrides_keeps, split_list-joined}
use e_trace_diag.Tests.Floats.{defaults}

abbrev numerals : Numerals ℕ
numerals = record { strtoull = λ s. some 7; strtod = λ s. none }

abbrev comma : Char
comma = ","

abbrev bare : Environment
bare = λ name. none

apply_env_overrides_keeps_example : (apply_env_overrides numerals bare defaults).0 ≡ defaults
unfolding apply_env_overrides
apply_env_overrides_keeps_example = apply_env_overrides_keeps numerals bare defaults refl

split_list-joined_example :
    split_list (joined_after comma "cpu" ("io" ∷ "lock" ∷ [])) ≡ "cpu" ∷ "io" ∷ "lock" ∷ []
split_list-joined_example =
    split_list-joined comma "cpu" ("io" ∷ "lock" ∷ []) refl (omega arith) (omega arith)
