-- ===== src/Examples/Tool.antt =====
-- The command line tool, with a file that names two servers.
use t2_bus.Base.{
  ℕ, true, ◌&&◌, codes, List, [], ◌∷◌, ◌++◌, Option, none, some, inr, ◌≡◌, refl, arith,
}
use mathlib.Core.List.{append_assoc}
use mathlib.Core.Logic.{ite}
use t2_bus.Text.{Text, Segments, text_discrete, lacks, split}
use t2_bus.Topic.{Topic}
use t2_bus.Topic.Parse.{split_once}
use t2_bus.Topic.RoundTrip.{split_once-append}
use t2_bus.Topic.Joining.{split-append}
use t2_bus.Protocol.{to_payload}
use t2_bus.Cli.{
  holds, ResolvedBusAddr, tcp, unix, Config, done, failed, publish, Env, Patterns, is_name,
  addr_parts, kind_of, addr_of, line, retain_others, print_config, parse_config, not_registered,
  added, resolve_addr, run_register, run_unregister,
}
use t2_bus.Cli.Config.{Holds}
use t2_bus.Cli.Names.{named, run_register-resolves, run_unregister-resolves, default_after}
use t2_bus.Cli.Values.{
  Floats, validate, pub_payload, sub_line, printed, with_topic, pub_payload-printed,
}
use t2_bus.Examples.Frames.{plain_gzip, plain_cbor}

-- The configuration pattern as a program: what a line with a space and a colon holds.
abbrev with_kind : Text → Option (Text × Text) → List (Text × Text × Text)
with_kind name none = []
with_kind name (some (kind, addr)) = (name, kind, addr) ∷ []

abbrev with_name : Option (Text × Text) → List (Text × Text × Text)
with_name none = []
with_name (some (name, rest)) = with_kind name (split_once b':' rest)

abbrev captures_lines : Segments → List (Text × Text × Text)
captures_lines [] = []
captures_lines (l ∷ ls) = with_name (split_once b' ' l) ++ captures_lines ls

is_name-lacks : (s : Text) → is_name s ≡ true → (lacks b' ' s ≡ true) × (lacks b'\n' s ≡ true)
is_name-lacks [] h = ground (arith, h)
is_name-lacks (c ∷ []) h = ground (arith, h)
is_name-lacks (c ∷ d ∷ s) h = ground (arith, h, is_name-lacks (d ∷ s))

lacks-append : (sep : ℕ) (s r : Text) → lacks sep (s ++ r) ≡ (lacks sep s && lacks sep r)
lacks-append sep [] r = refl
lacks-append sep (c ∷ s) r = ground (arith, lacks-append sep s r)

kind_of-lacks :
    (a : ResolvedBusAddr) → (lacks b':' (kind_of a) ≡ true) × (lacks b'\n' (kind_of a) ≡ true)
kind_of-lacks (tcp a) = (refl, refl)
kind_of-lacks (unix a) = (refl, refl)

-- A line without its end.
abbrev body : Text → ResolvedBusAddr → Text
body name a = name ++ b' ' ∷ (kind_of a ++ b':' ∷ addr_of a)

line-body :
    (name : Text) (a : ResolvedBusAddr) (rest : Text)
    → line (name, a) ++ rest ≡ body name a ++ b'\n' ∷ rest
line-body name a rest = ground (
  arith,
  append_assoc name (b' ' ∷ (kind_of a ++ b':' ∷ (addr_of a ++ b'\n' ∷ []))) rest,
  append_assoc name (b' ' ∷ (kind_of a ++ b':' ∷ addr_of a)) (b'\n' ∷ rest),
  append_assoc (kind_of a) (b':' ∷ (addr_of a ++ b'\n' ∷ [])) rest,
  append_assoc (kind_of a) (b':' ∷ addr_of a) (b'\n' ∷ rest),
  append_assoc (addr_of a) (b'\n' ∷ []) rest,
)

body-lacks :
    (name : Text) (a : ResolvedBusAddr)
    → is_name name ≡ true
    → lacks b'\n' (addr_of a) ≡ true
    → lacks b'\n' (body name a) ≡ true
body-lacks name a v h = ground (
  arith,
  h,
  is_name-lacks name v,
  kind_of-lacks a,
  lacks-append b'\n' name (b' ' ∷ (kind_of a ++ b':' ∷ addr_of a)),
  lacks-append b'\n' (kind_of a) (b':' ∷ addr_of a),
)

with_name-body :
    (name : Text) (a : ResolvedBusAddr)
    → is_name name ≡ true
    → with_name (split_once b' ' (body name a)) ≡ (name, kind_of a, addr_of a) ∷ []
with_name-body name a v =
    rw (split_once-append b' ' name (kind_of a ++ b':' ∷ addr_of a) (is_name-lacks name v).0)
      (rw (split_once-append b':' (kind_of a) (addr_of a) (kind_of-lacks a).0) refl)

pub captures_lines-line :
    (name : Text) (a : ResolvedBusAddr) (rest : Text)
    → is_name name ≡ true
    → lacks b'\n' (addr_of a) ≡ true
    → captures_lines (split b'\n' (line (name, a) ++ rest))
      ≡ (name, kind_of a, addr_of a) ∷ captures_lines (split b'\n' rest)
captures_lines-line name a rest v h =
    rw (line-body name a rest, split-append b'\n' (body name a) rest (body-lacks name a v h))
      (rw (with_name-body name a v) refl)

unfoldable pub plain_patterns : Patterns
unfolding split split_once
plain_patterns = record {
  rgx_name = is_name;
  captures_addr = addr_parts;
  captures_config = λ s. captures_lines (split b'\n' s);
  rgx_name_lem = λ s. refl;
  captures_addr_lem = λ s. refl;
  captures_config_nil = refl;
  captures_config_line = captures_lines-line;
}

abbrev config : Config
config = (codes "main", tcp (codes "1:2")) ∷ (codes "spare", unix (codes "/s")) ∷ []

abbrev pub env : Env
env = record { home = some (codes "/h"); file = holds (print_config config); write_error = none }

env-Holds : Holds plain_patterns env config
env-Holds = record {
  home = codes "/h";
  has_home = refl;
  printable = (refl, refl, (refl, refl, tt));
  written = inr refl;
}

abbrev other : ResolvedBusAddr
other = unix (codes "/t")

resolves_other : resolve_addr plain_patterns env (some (codes "unix:/t")) ≡ done other
unfolding resolve_addr split_once text_discrete plain_patterns
resolves_other = refl

registers : run_register plain_patterns (codes "spare") (codes "unix:/t") true env ≡ (
  done tt,
  record env {
    file = holds (print_config ((codes "spare", other) ∷ (codes "main", tcp (codes "1:2")) ∷ []));
  },
)
unfolding run_register resolve_addr parse_config print_config split_once split text_discrete
    plain_patterns
registers = refl

run_register-resolves_example :
    let (r, env') = run_register plain_patterns (codes "spare") (codes "unix:/t") true env in
    (r ≡ done tt)
    × Holds plain_patterns env' (added (codes "spare") true other config)
    × (resolve_addr plain_patterns env' (some (named (codes "main")))
        ≡ ite
            (text_discrete (codes "spare") (codes "main"))
            (done other)
            (resolve_addr plain_patterns env (some (named (codes "main")))))
    × (resolve_addr plain_patterns env' none
        ≡ default_after plain_patterns true other (retain_others (codes "spare") config))
run_register-resolves_example =
    run_register-resolves plain_patterns (codes "spare") (codes "unix:/t") (codes "main") true env
      config other env-Holds refl refl refl resolves_other

run_unregister-resolves_example :
    let (r, env') = run_unregister plain_patterns (codes "main") env in
    (r ≡ done tt)
    × Holds plain_patterns env' (retain_others (codes "main") config)
    × (resolve_addr plain_patterns env' (some (named (codes "main")))
        ≡ ite
            (text_discrete (codes "main") (codes "main"))
            (failed (not_registered (codes "main")))
            (resolve_addr plain_patterns env (some (named (codes "main")))))
run_unregister-resolves_example =
    run_unregister-resolves plain_patterns (codes "main") (codes "main") env config env-Holds refl
      refl

abbrev a_string : Topic
a_string = record { protocol = codes "string"; path = record { text = codes "a" } }

-- Numbers are their texts.
abbrev plain_floats : Floats
plain_floats = record { F32 = Text; parse = λ s. some s; print = λ s. s }

validates :
    validate plain_floats plain_cbor plain_cbor plain_gzip
      (λ e. [])
      (λ b. [])
      (publish a_string (codes "hi") none)
    ≡ done tt
unfolding validate text_discrete
validates = refl

pays :
    pub_payload plain_floats plain_cbor plain_cbor plain_gzip
      (λ e. [])
      (λ b. [])
      a_string
      (codes "hi")
    ≡ done (codes "hi")
unfolding pub_payload text_discrete
pays = refl

pub_payload-printed_example :
    (text : Text) × (printed plain_floats plain_cbor plain_cbor plain_gzip
        (λ e. [])
        (λ b. [])
        a_string
        (codes "hi")
      ≡ some text)
    × (sub_line plain_floats plain_cbor plain_cbor plain_gzip
          (λ e. [])
          (λ b. [])
          (record { topic = a_string; payload = to_payload plain_gzip (codes "hi") })
        ≡ done (
            with_topic plain_floats plain_cbor plain_cbor plain_gzip
              (λ e. [])
              (λ b. [])
              a_string
              text))
pub_payload-printed_example =
    pub_payload-printed plain_floats plain_cbor plain_cbor plain_gzip (λ e. []) (λ b. []) a_string
      (codes "hi") none (codes "hi") validates pays
