-- ===== src/Cli/Config.antt =====
-- The configuration file of src/bin/t2.rs: what is written is read back.
use mathlib.Core.Logic.{ite}
use t2_bus.Base.{Bool, true, false, inl, inr, ◌⊎◌, [], ◌∷◌, ◌++◌, none, some, ◌≡◌, refl, arith}
use t2_bus.Text.{Text, text_discrete, lacks}
use t2_bus.Cli.{
  absent, holds, ResolvedBusAddr, tcp, unix, Config, done, Env, Patterns, is_name, kind_of, addr_of,
  find, retain_others, print_config, entry_of, entries_of, parse_config, added,
}

-- Every name is valid, and no address has a newline.
abbrev pub IsPrintable : Config → Type 0
IsPrintable [] = Unit
IsPrintable ((n, a) ∷ config) =
    (is_name n ≡ true) × (lacks b'\n' (addr_of a) ≡ true) × IsPrintable config

pub find-retain_others :
    (name n : Text) (config : Config)
    → find n (retain_others name config) ≡ ite (text_discrete name n) none (find n config)
unfolding find retain_others
find-retain_others name n [] = ground arith
find-retain_others name n ((m, a) ∷ config) = ground (arith, find-retain_others name n config)

pub find-append :
    (n name : Text) (a : ResolvedBusAddr) (config : Config)
    → find n (config ++ (name, a) ∷ [])
      ≡ elim (find n config) [ some b ↦ some b | none ↦ ite (text_discrete name n) (some a) none ]
unfolding find
find-append n name a [] = ground arith
find-append n name a ((m, b) ∷ config) = ground (arith, find-append n name a config)

pub retain_others-IsPrintable :
    (name : Text) (config : Config) → IsPrintable config → IsPrintable (retain_others name config)
unfolding retain_others
retain_others-IsPrintable name [] h = tt
retain_others-IsPrintable name ((n, a) ∷ config) h =
    ground (arith, retain_others-IsPrintable name config h.2)

append-IsPrintable :
    (config more : Config) → IsPrintable config → IsPrintable more → IsPrintable (config ++ more)
append-IsPrintable [] more h k = k
append-IsPrintable ((n, a) ∷ config) more (v, l, h) k = (v, l, append-IsPrintable config more h k)

pub find-IsPrintable :
    (n : Text) (config : Config) (a : ResolvedBusAddr)
    → IsPrintable config
    → find n config ≡ some a
    → lacks b'\n' (addr_of a) ≡ true
unfolding find
find-IsPrintable n [] a h e = ground (arith, e)
find-IsPrintable n ((m, b) ∷ config) a h e = ground (arith, e, find-IsPrintable n config a h.2, h.1)

pub added-IsPrintable :
    (name : Text) (default : Bool) (a : ResolvedBusAddr) (config : Config)
    → is_name name ≡ true
    → lacks b'\n' (addr_of a) ≡ true
    → IsPrintable config
    → IsPrintable (added name default a config)
added-IsPrintable name true a config v l h = (v, l, retain_others-IsPrintable name config h)
added-IsPrintable name false a config v l h =
    append-IsPrintable (retain_others name config) ((name, a) ∷ [])
      (retain_others-IsPrintable name config h) (v, l, tt)

pub find-added :
    (name n : Text) (default : Bool) (a : ResolvedBusAddr) (config : Config)
    → find n (added name default a config) ≡ ite (text_discrete name n) (some a) (find n config)
unfolding find
find-added name n true a config = ground (arith, find-retain_others name n config)
find-added name n false a config =
    ground
      (arith, find-append n name a (retain_others name config), find-retain_others name n config)

module _ (patterns : Patterns) where
  entry_of_entry :
      (n : Text) (a : ResolvedBusAddr) → entry_of patterns (n, kind_of a, addr_of a) ≡ done (n, a)
  unfolding text_discrete
  entry_of_entry n (tcp a) = refl
  entry_of_entry n (unix a) = refl

  pub entries_of-print_config :
      (config : Config)
      → IsPrintable config
      → entries_of patterns (patterns.captures_config (print_config config)) ≡ done config
  unfolding entries_of print_config
  entries_of-print_config [] h = rw (patterns.captures_config_nil) refl
  entries_of-print_config ((n, a) ∷ config) (v, l, h) =
      rw (patterns.captures_config_line n a (print_config config) v l)
        (rw (entry_of_entry n a, entries_of-print_config config h) refl)

  -- The tool's file holds these names.
  pub record Holds (env : Env) (config : Config) : Type 0 where
    pub home : Text
    pub has_home : env.home ≡ some home
    pub printable : IsPrintable config
    pub written : ((env.file ≡ absent) × (config ≡ [])) ⊎ (env.file ≡ holds (print_config config))

  pub parse_config-Holds :
      (env : Env) (config : Config) → Holds env config → parse_config patterns env ≡ done config
  unfolding parse_config
  parse_config-Holds env config h = elim h.written [
    | inl (e, n) ↦ rw (h.has_home, e, n) refl
    | inr e ↦ rw (h.has_home, e) (entries_of-print_config config h.printable)
  ]
