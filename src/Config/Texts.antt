-- ===== src/Config/Texts.antt =====
-- The parsers of src/config.cpp: numbers, switches and lists with commas.
use Prim.Native.Char.{Char, code}
use e_trace_diag.Prelude.{
  ℕ, String, Bool, true, false, ◌||◌, List, [], ◌∷◌, Option, some, none, ◌==◌, if◌then◌else◌,
  str_eq,
}

-- `strtoull` and `strtod`: the number that a text starts with, or `none` where it starts with none.
pub record Numerals (Double : Type 0) : Type 0 where
  pub strtoull : String → Option ℕ
  pub strtod : String → Option Double

abbrev pub or_else : {A : Type 0} → Option A → A → A
or_else none d = d
or_else (some a) d = a

module _ {Double : Type 0} (lib : Numerals Double) where
  unfoldable pub parse_u64 : String → ℕ → ℕ
  parse_u64 s dflt = if str_eq s "" then dflt else or_else (lib.strtoull s) dflt

  unfoldable pub parse_d : String → Double → Double
  parse_d s dflt = if str_eq s "" then dflt else or_else (lib.strtod s) dflt

unfoldable pub parse_bool : String → Bool → Bool
parse_bool s dflt =
    if str_eq s "1" || str_eq s "true" || str_eq s "TRUE" || str_eq s "on" || str_eq s "yes"
    then true
    else if str_eq s "0" || str_eq s "false" || str_eq s "FALSE" || str_eq s "off" || str_eq s "no"
    then false
    else dflt

-- The pieces between the commas, of which there is one at least.
abbrev pub push_char : Char → List String → List String
push_char c [] = (String.◌∷◌ c String.[]) ∷ []
push_char c (s ∷ ss) = (String.◌∷◌ c s) ∷ ss

unfoldable pub pieces : String → List String
pieces String.[] = String.[] ∷ []
pieces (String.◌∷◌ c s) = if code c == 44 then String.[] ∷ pieces s else push_char c (pieces s)

-- `if (!tok.empty())`.
unfoldable pub nonempty : List String → List String
nonempty [] = []
nonempty (String.[] ∷ ss) = nonempty ss
nonempty ((String.◌∷◌ c s) ∷ ss) = (String.◌∷◌ c s) ∷ nonempty ss

-- The loop over a list with commas.
unfoldable pub split_list : String → List String
unfolding pieces nonempty
split_list s = nonempty (pieces s)
