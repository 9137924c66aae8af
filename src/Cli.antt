-- ===== src/Cli.antt =====
-- src/bin/t2.rs: the command line tool: its commands, the addresses of servers and the file in which
-- it keeps their names.
pub mod Outcomes
pub mod Config
pub mod Names
pub mod Values
pub mod Serving
use mathlib.Core.Logic.{ite}
use t2_bus.Base.{
  ℕ, ◌==◌, leb, if◌then◌else◌, Bool, true, false, ◌&&◌, ◌||◌, codes, List, [], ◌∷◌, ◌++◌, Option,
  none, some, ◌≡◌,
}
use t2_bus.Text.{Text, text_discrete, lacks}
use t2_bus.Topic.{Topic}
use t2_bus.Err
use t2_bus.Err.{BusError, Result}
use t2_bus.Topic.Parse.{split_once}

pub data ResolvedBusAddr : Type 0 where
  tcp unix : Text → ResolvedBusAddr

abbrev pub Config : Type 0
Config = List (Text × ResolvedBusAddr)

-- `Result<_, Error>`, where `Error` holds a text, with a case for a panic.
pub data Outcome (A : Type 0) : Type 0 where
  done : A → Outcome A
  failed : Text → Outcome A
  panicked : Outcome A

infixl 5 ◌>>=◌
abbrev pub ◌>>=◌ : {A B : Type 0} → Outcome A → (A → Outcome B) → Outcome B
done a >>= f = f a
failed e >>= f = failed e
panicked >>= f = panicked

-- `From<BusError>`, where `describe` is how an error of the bus prints.
abbrev pub from_bus : {A : Type 0} → (BusError → Text) → Result A → Outcome A
from_bus describe (Err.ok a) = done a
from_bus describe (Err.err e) = failed (describe e)
from_bus describe Err.panic = panicked

pub data Command : Type 0 where
  serve : List Text → Command
  sub : Topic → Option Text → Command
  publish : Topic → Text → Option Text → Command
  ls : Topic → Option Text → Command
  register : Text → Text → Bool → Command
  unregister : Text → Command

-- The file `.t2`, which can be unreadable where it exists.
pub data File : Type 0 where
  absent : File
  unreadable : File
  holds : Text → File

-- The `HOME` variable, the file there, and the error that writing it ends with.
pub record Env : Type 0 where
  pub home : Option Text
  pub file : File
  pub write_error : Option Text

-- `^[a-z_]+$`
abbrev is_name_char : ℕ → Bool
is_name_char c = (leb b'a' c && leb c b'z') || c == b'_'

abbrev pub is_name : Text → Bool
is_name [] = false
is_name (c ∷ []) = is_name_char c
is_name (c ∷ d ∷ s) = is_name_char c && is_name (d ∷ s)

-- `^(tcp|unix|name):(.+)$`, where the dot is any byte but the newline
abbrev pub is_kind : Text → Bool
is_kind s =
    ite (text_discrete s (codes "tcp")) true
      (ite (text_discrete s (codes "unix")) true (ite (text_discrete s (codes "name")) true false))

abbrev pub is_line : Text → Bool
is_line [] = false
is_line (c ∷ s) = lacks b'\n' (c ∷ s)

abbrev pub kind_and_rest : Option (Text × Text) → Option (Text × Text)
kind_and_rest none = none
kind_and_rest (some (kind, rest)) = if is_kind kind && is_line rest then some (kind, rest) else none

abbrev pub addr_parts : Text → Option (Text × Text)
addr_parts s = kind_and_rest (split_once b':' s)

abbrev pub kind_of : ResolvedBusAddr → Text
kind_of (tcp a) = codes "tcp"
kind_of (unix a) = codes "unix"

abbrev pub addr_of : ResolvedBusAddr → Text
addr_of (tcp a) = a
addr_of (unix a) = a

-- `Display`, and a line of the file
abbrev pub line : Text × ResolvedBusAddr → Text
line (name, a) = name ++ b' ' ∷ (kind_of a ++ b':' ∷ (addr_of a ++ b'\n' ∷ []))

-- What the code uses of the regex library: the name pattern, the parts of an address, and the
-- matches of the configuration pattern, one after the other. A match at the start of a text takes a
-- name without a space up to the kind, and the address up to the end of the line.
pub record Patterns : Type 0 where
  pub rgx_name : Text → Bool
  pub captures_addr : Text → Option (Text × Text)
  pub captures_config : Text → List (Text × Text × Text)
  pub rgx_name_lem : (s : Text) → rgx_name s ≡ is_name s
  pub captures_addr_lem : (s : Text) → captures_addr s ≡ addr_parts s
  pub captures_config_nil : captures_config [] ≡ []
  pub captures_config_line :
      (name : Text) (a : ResolvedBusAddr) (rest : Text)
      → is_name name ≡ true
      → lacks b'\n' (addr_of a) ≡ true
      → captures_config (line (name, a) ++ rest)
        ≡ (name, kind_of a, addr_of a) ∷ captures_config rest

abbrev pub some_or_failed : {A : Type 0} → Text → Option A → Outcome A
some_or_failed e none = failed e
some_or_failed e (some a) = done a

abbrev no_home : Text
no_home = codes "HOME environment variable not set"

abbrev pub not_registered : Text → Text
not_registered name = codes "Name is not registered: " ++ name

abbrev pub no_default : Text
no_default =
    codes
      "No default address found in config. Use the register command to add one or specify an address"

unfoldable pub find : Text → Config → Option ResolvedBusAddr
find name [] = none
find name ((n, a) ∷ config) = ite (text_discrete n name) (some a) (find name config)

-- `config.retain(|(n, _)| n != &name)`
unfoldable pub retain_others : Text → Config → Config
retain_others name [] = []
retain_others name ((n, a) ∷ config) =
    let rest = retain_others name config in ite (text_discrete n name) rest ((n, a) ∷ rest)

unfoldable pub print_config : Config → Text
print_config [] = []
print_config (entry ∷ config) = line entry ++ print_config config

abbrev pub added : Text → Bool → ResolvedBusAddr → Config → Config
added name true a config = (name, a) ∷ retain_others name config
added name false a config = retain_others name config ++ (name, a) ∷ []

module _ (patterns : Patterns) where
  unfoldable pub validate_bus_addr_name : Text → Outcome Text
  validate_bus_addr_name s =
      if patterns.rgx_name s
      then done s
      else failed (codes "Invalid bus address name, must contain only lowercase and underscore.")

  abbrev when_valid : Text → Option (Text × Text) → Outcome Text
  when_valid s none =
      failed
        (codes "Invalid bus address. Must be in the format of (tcp|unix|name):<address or name>")
  when_valid s (some parts) = done s

  unfoldable pub validate_bus_addr : Text → Outcome Text
  validate_bus_addr s = when_valid s (patterns.captures_addr s)

  -- The closure of `parse_config`, which panics on another kind.
  abbrev entry_of : Text × Text × Text → Outcome (Text × ResolvedBusAddr)
  entry_of (name, kind, addr) =
      ite (text_discrete kind (codes "tcp")) (done (name, tcp addr))
        (ite (text_discrete kind (codes "unix")) (done (name, unix addr)) panicked)

  unfoldable pub entries_of : List (Text × Text × Text) → Outcome Config
  entries_of [] = done []
  entries_of (m ∷ ms) = let rest = entries_of ms in entry_of m >>= λ e. rest >>= λ es. done (e ∷ es)

  abbrev parse_file : File → Outcome Config
  parse_file absent = done []
  parse_file unreadable = panicked
  parse_file (holds text) = entries_of (patterns.captures_config text)

  abbrev parse_at : Option Text → File → Outcome Config
  parse_at none file = done []
  parse_at (some home) file = parse_file file

  unfoldable pub parse_config : Env → Outcome Config
  unfolding entries_of
  parse_config env = parse_at env.home env.file

  abbrev pub first_addr : Config → Outcome ResolvedBusAddr
  first_addr [] = failed no_default
  first_addr ((n, a) ∷ config) = done a

  unfoldable pub resolve_parts : Env → Option (Text × Text) → Outcome ResolvedBusAddr
  unfolding parse_config find
  resolve_parts env none = panicked
  resolve_parts env (some (kind, addr)) = ite (text_discrete kind (codes "tcp")) (done (tcp addr)) (
      ite (text_discrete kind (codes "unix")) (done (unix addr)) (
        ite (text_discrete kind (codes "name"))
          (parse_config env >>= λ config. some_or_failed (not_registered addr) (find addr config))
          (failed (codes "Invalid address type"))))

  unfoldable pub resolve_addr : Env → Option Text → Outcome ResolvedBusAddr
  unfolding resolve_parts parse_config
  resolve_addr env (some addr) = resolve_parts env (patterns.captures_addr addr)
  resolve_addr env none = parse_config env >>= first_addr

  -- `std::fs::write`
  abbrev pub write : Text → Env → Outcome (Unit {0}) × Env
  write text env = elim env.write_error [
    | none ↦ (done tt, record env { file = holds text })
    | some e ↦ (failed e, env)
  ]

  abbrev pub write_config : Outcome Config → Env → Outcome (Unit {0}) × Env
  write_config (done config) env = write (print_config config) env
  write_config (failed e) env = (failed e, env)
  write_config panicked env = (panicked, env)

  -- The arms `Register` and `Unregister` of `run`
  unfoldable pub run_register : Text → Text → Bool → Env → Outcome (Unit {0}) × Env
  unfolding resolve_addr parse_config print_config retain_others
  run_register name addr default env =
      write_config
        (some_or_failed no_home env.home >>= λ home. resolve_addr env (some addr) >>= λ a.
          parse_config env >>= λ config. done (added name default a config))
        env

  unfoldable pub run_unregister : Text → Env → Outcome (Unit {0}) × Env
  unfolding parse_config print_config retain_others
  run_unregister name env =
      write_config
        (some_or_failed no_home env.home >>= λ home.
          parse_config env >>= λ config. done (retain_others name config))
        env
