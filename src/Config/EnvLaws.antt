-- ===== src/Config/EnvLaws.antt =====
-- What `ApplyEnvOverrides` (src/config.cpp) leaves alone, and the lists that it reads.
use Prim.Native.Char.{Char, code}
use e_trace_diag.Prelude.{
  String, Bool, true, false, List, [], ◌∷◌, Option, some, none, ◌≡◌, ◌≢◌, if_cases, ==_iff, refl,
  ap, ◌∙◌, arith, All, ◌==◌, inl, inr, ◌⊎◌,
}
use e_trace_diag.Config.Defs.{Config}
use e_trace_diag.Config.Texts.{Numerals, push_char, pieces, nonempty, split_list}
use e_trace_diag.Config.Env.{
  Environment, Entry, override, entries, apply_entries, apply_env_overrides, set_categories,
  set_pinned,
}

module _ {Double : Type 0} (lib : Numerals Double) where
  -- A result that says that nothing was set has the configuration that came in.
  abbrev Kept : Config Double → Config Double × Bool → Type 0
  Kept c r = (r.1 ≡ true) ⊎ (r.0 ≡ c)

  override-Kept :
      (o : Option String) (g : String → Config Double → Config Double) (c : Config Double)
      (r : Config Double × Bool)
      → Kept c r
      → Kept c (override lib o g r)
  override-Kept none g c r h = h
  override-Kept (some v) g c r h = inl refl

  apply_entries-Kept :
      (env : Environment) (es : List (Entry Double)) (c : Config Double) (r : Config Double × Bool)
      → Kept c r
      → Kept c (apply_entries lib env es r)
  unfolding apply_entries
  apply_entries-Kept env [] c r h = h
  apply_entries-Kept env ((name, g) ∷ es) c r h =
      apply_entries-Kept env es c (override lib (env name) g r) (override-Kept (env name) g c r h)

  decided : (c : Config Double) (r : Config Double × Bool) → r.1 ≡ false → Kept c r → r.0 ≡ c
  decided c r h k = ground arith

  all-Kept : (env : Environment) (c : Config Double) → Kept c (apply_env_overrides lib env c)
  unfolding apply_env_overrides
  all-Kept env c =
      let fields = apply_entries lib env (entries lib) (c, false) in
      let lists = override lib (env "ETRACE_DIAG_MISC_CATEGORIES") (set_categories lib) fields in
      override-Kept (env "ETRACE_DIAG_TARGETS_PINNED") (set_pinned lib) c lists (
        override-Kept (env "ETRACE_DIAG_MISC_CATEGORIES") (set_categories lib) c fields
          (apply_entries-Kept env (entries lib) c (c, false) (inr refl)))

  -- When `ApplyEnvOverrides` reports that nothing was set, the configuration is unchanged.
  pub apply_env_overrides_keeps :
      (env : Environment) (c : Config Double)
      → (apply_env_overrides lib env c).1 ≡ false
      → (apply_env_overrides lib env c).0 ≡ c
  apply_env_overrides_keeps env c h = decided c (apply_env_overrides lib env c) h (all-Kept env c)

-- A text without commas.
abbrev pub NoComma : String → Type 0
NoComma String.[] = Unit {0}
NoComma (String.◌∷◌ c s) = (code c ≢ 44) × NoComma s

-- A piece that stays one entry: not empty and without commas.
abbrev pub IsItem : String → Type 0
IsItem String.[] = ⊥
IsItem (String.◌∷◌ c s) = NoComma (String.◌∷◌ c s)

-- One text before another.
abbrev pub before : String → String → String
before String.[] t = t
before (String.◌∷◌ c s) t = String.◌∷◌ c (before s t)

-- The texts with a comma between each two of them.
abbrev pub joined_after : Char → String → List String → String
joined_after comma s [] = s
joined_after comma s (t ∷ ts) = before s (String.◌∷◌ comma (joined_after comma t ts))

pieces_cons :
    (c : Char) (s : String) (t : String) (ts : List String)
    → code c ≢ 44
    → pieces s ≡ t ∷ ts
    → pieces (String.◌∷◌ c s) ≡ (String.◌∷◌ c t) ∷ ts
unfolding pieces
pieces_cons c s t ts h e =
    if_cases (λ (r : List String). r ≡ (String.◌∷◌ c t) ∷ ts) (code c == 44)
      (λ q. absurd (h ((==_iff (code c) 44).0 q))) (λ q. ap (push_char c) e)

pieces_alone : (s : String) → NoComma s → pieces s ≡ s ∷ []
unfolding pieces
pieces_alone String.[] h = refl
pieces_alone (String.◌∷◌ c s) h = pieces_cons c s s [] h.0 (pieces_alone s h.1)

comma_not : (c : Char) → (code c == 44) ≡ false → code c ≢ 44
comma_not c q e = ground arith

pieces-before :
    (comma : Char) (s rest : String)
    → code comma ≡ 44
    → NoComma s
    → pieces (before s (String.◌∷◌ comma rest)) ≡ s ∷ pieces rest
unfolding pieces
pieces-before comma String.[] rest e h =
    if_cases (λ (r : List String). r ≡ String.[] ∷ pieces rest) (code comma == 44) (λ q. refl)
      (λ q. absurd (comma_not comma q e))
pieces-before comma (String.◌∷◌ c s) rest e h =
    pieces_cons c (before s (String.◌∷◌ comma rest)) s (pieces rest) h.0
      (pieces-before comma s rest e h.1)

pieces-joined :
    (comma : Char) (s : String) (ts : List String)
    → code comma ≡ 44
    → NoComma s
    → All NoComma ts
    → pieces (joined_after comma s ts) ≡ s ∷ ts
pieces-joined comma s [] e h k = pieces_alone s h
pieces-joined comma s (t ∷ ts) e h k =
    pieces-before comma s (joined_after comma t ts) e h
    ∙ ap (◌∷◌ s) (pieces-joined comma t ts e k.0 k.1)

nonempty-items : (ts : List String) → All IsItem ts → nonempty ts ≡ ts
unfolding nonempty
nonempty-items [] h = refl
nonempty-items (String.[] ∷ ts) h = absurd h.0
nonempty-items ((String.◌∷◌ c s) ∷ ts) h = ap (◌∷◌ (String.◌∷◌ c s)) (nonempty-items ts h.1)

item-NoComma : (s : String) → IsItem s → NoComma s
item-NoComma String.[] h = absurd h
item-NoComma (String.◌∷◌ c s) h = h

items-NoComma : (ts : List String) → All IsItem ts → All NoComma ts
items-NoComma [] h = tt
items-NoComma (t ∷ ts) h = (item-NoComma t h.0, items-NoComma ts h.1)

-- The list that the overrides read from texts joined by commas is those texts, where each is not
-- empty and has no comma.
pub split_list-joined :
    (comma : Char) (s : String) (ts : List String)
    → code comma ≡ 44
    → IsItem s
    → All IsItem ts
    → split_list (joined_after comma s ts) ≡ s ∷ ts
unfolding split_list
split_list-joined comma s ts e h k =
    ap nonempty (pieces-joined comma s ts e (item-NoComma s h) (items-NoComma ts k))
    ∙ nonempty-items (s ∷ ts) (h, k)
