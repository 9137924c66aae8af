-- ===== src/Cli/Names.antt =====
-- The names of servers that src/bin/t2.rs registers and unregisters, as an address resolves them.
use mathlib.Core.Logic.{ite}
use t2_bus.Base.{
  Bool, true, false, Option-cases, inl, inr, codes, [], ◌∷◌, ◌++◌, Option, none, some, ◌≡◌, refl,
  ◌∙◌, arith,
}
use t2_bus.Text.{Text, text_discrete, lacks}
use t2_bus.Topic.Parse.{split_once}
use t2_bus.Cli.{
  holds, ResolvedBusAddr, Config, Outcome, done, failed, Env, Patterns, is_name, is_line,
  kind_and_rest, addr_parts, addr_of, find, retain_others, print_config, some_or_failed,
  not_registered, first_addr, resolve_parts, resolve_addr, added, run_register, run_unregister,
}
use t2_bus.Cli.Config.{
  IsPrintable, find-retain_others, retain_others-IsPrintable, find-IsPrintable, added-IsPrintable,
  find-added, Holds, parse_config-Holds,
}

abbrev pub named : Text → Text
named name = codes "name:" ++ name

-- What a name stands for.
abbrev pub resolved : Text → Option ResolvedBusAddr → Outcome ResolvedBusAddr
resolved name o = some_or_failed (not_registered name) o

is_name-is_line : (s : Text) → is_name s ≡ true → is_line s ≡ true
is_name-is_line [] h = ground (arith, h)
is_name-is_line (c ∷ []) h = ground arith
is_name-is_line (c ∷ d ∷ s) h = ground (arith, is_name-is_line (d ∷ s))

addr_parts-named :
    (name : Text) → is_name name ≡ true → addr_parts (named name) ≡ some (codes "name", name)
unfolding split_once text_discrete
addr_parts-named name h = rw (is_name-is_line name h) refl

module _ (patterns : Patterns) where
  resolve_addr-named :
      (env : Env) (config : Config) (name : Text)
      → Holds patterns env config
      → is_name name ≡ true
      → resolve_addr patterns env (some (named name)) ≡ resolved name (find name config)
  unfolding resolve_addr resolve_parts text_discrete
  resolve_addr-named env config name h v =
      rw (patterns.captures_addr_lem (named name), addr_parts-named name v)
        (rw (parse_config-Holds patterns env config h) refl)

  resolve_addr-default :
      (env : Env) (config : Config)
      → Holds patterns env config
      → resolve_addr patterns env none ≡ first_addr patterns config
  unfolding resolve_addr
  resolve_addr-default env config h = rw (parse_config-Holds patterns env config h) refl

  parts_line :
      (o : Option (Text × Text)) (kind rest : Text)
      → kind_and_rest o ≡ some (kind, rest)
      → lacks b'\n' rest ≡ true
  parts_line none kind rest e = ground (arith, e)
  parts_line (some (k, [])) kind rest e = ground (arith, e)
  parts_line (some (k, c ∷ r)) kind rest e = ground (arith, e)

  -- An address that resolves has no newline.
  resolve_addr-lacks :
      (env : Env) (config : Config) (addr : Text) (a : ResolvedBusAddr)
      → Holds patterns env config
      → resolve_addr patterns env (some addr) ≡ done a
      → lacks b'\n' (addr_of a) ≡ true
  unfolding resolve_addr resolve_parts
  resolve_addr-lacks env config addr a h e = elim (Option-cases (addr_parts addr)) [
    | inl n ↦ ground (arith, e, n, patterns.captures_addr_lem addr)
    | inr ((kind, rest), s) ↦ elim (Option-cases (find rest config)) [
      | inl f ↦ ground (
        arith,
        e,
        s,
        f,
        patterns.captures_addr_lem addr,
        parse_config-Holds patterns env config h,
        parts_line (split_once b':' addr) kind rest s,
      )
      | inr (b, f) ↦ ground (
        arith,
        e,
        s,
        f,
        patterns.captures_addr_lem addr,
        parse_config-Holds patterns env config h,
        parts_line (split_once b':' addr) kind rest s,
        find-IsPrintable rest config b h.printable f,
      )
    ]
  ]

  -- The file after `config` was written to it.
  abbrev rewritten : Env → Config → Env
  rewritten env config = record env { file = holds (print_config config) }

  rewritten-Holds :
      (env : Env) (config later : Config)
      → Holds patterns env config
      → IsPrintable later
      → Holds patterns (rewritten env later) later
  rewritten-Holds env config later h k = record {
    home = h.home;
    has_home = h.has_home;
    printable = k;
    written = inr refl;
  }

  run_register_done :
      (name addr : Text) (default : Bool) (env : Env) (config : Config) (a : ResolvedBusAddr)
      → Holds patterns env config
      → env.write_error ≡ none
      → resolve_addr patterns env (some addr) ≡ done a
      → run_register patterns name addr default env
        ≡ (done tt, rewritten env (added name default a config))
  unfolding run_register
  run_register_done name addr default env config a h w r =
      ground (arith, h.has_home, parse_config-Holds patterns env config h, r, w)

  run_unregister_done :
      (name : Text) (env : Env) (config : Config)
      → Holds patterns env config
      → env.write_error ≡ none
      → run_unregister patterns name env ≡ (done tt, rewritten env (retain_others name config))
  unfolding run_unregister
  run_unregister_done name env config h w =
      ground (arith, h.has_home, parse_config-Holds patterns env config h, w)

  -- What no address stands for, after a registration beside the other names.
  abbrev pub default_after : Bool → ResolvedBusAddr → Config → Outcome ResolvedBusAddr
  default_after true a others = done a
  default_after false a [] = done a
  default_after false a ((n, b) ∷ others) = done b

  first_addr-added :
      (name : Text) (default : Bool) (a : ResolvedBusAddr) (config : Config)
      → first_addr patterns (added name default a config)
        ≡ default_after default a (retain_others name config)
  first_addr-added name true a config = refl
  first_addr-added name false a config = go (retain_others name config)
    where
      go :
          (others : Config)
          → first_addr patterns (others ++ (name, a) ∷ []) ≡ default_after false a others
      go [] = refl
      go ((n, b) ∷ others) = refl

  -- Registering an address that resolves, under a valid name and in a file of the tool that can be
  -- written, succeeds and leaves a file of the tool. The name then resolves to that address, every
  -- other name to what it did. No address stands for it too with `--default`, or where there is no
  -- other name, and for the first of the other names otherwise.
  pub run_register-resolves :
      (name addr n : Text) (default : Bool) (env : Env) (config : Config) (a : ResolvedBusAddr)
      → Holds patterns env config
      → env.write_error ≡ none
      → is_name name ≡ true
      → is_name n ≡ true
      → resolve_addr patterns env (some addr) ≡ done a
      → let (r, env') = run_register patterns name addr default env in
        (r ≡ done tt)
        × Holds patterns env' (added name default a config)
        × (resolve_addr patterns env' (some (named n))
            ≡ ite (text_discrete name n) (done a) (resolve_addr patterns env (some (named n))))
        × (resolve_addr patterns env' none ≡ default_after default a (retain_others name config))
  run_register-resolves name addr n default env config a h w v vn r =
      let later = added name default a config in
      let k = rewritten-Holds env config later h (
        added-IsPrintable name default a config v (resolve_addr-lacks env config addr a h r)
          h.printable) in
      rw (run_register_done name addr default env config a h w r) (
        refl,
        k,
        ground (
          arith,
          resolve_addr-named (rewritten env later) later n k vn,
          resolve_addr-named env config n h vn,
          find-added name n default a config,
        ),
        resolve_addr-default (rewritten env later) later k ∙ first_addr-added name default a config,
      )

  -- After a name is unregistered, in a file of the tool that can be written, that name is refused as
  -- not registered and every other name resolves to what it did.
  pub run_unregister-resolves :
      (name n : Text) (env : Env) (config : Config)
      → Holds patterns env config
      → env.write_error ≡ none
      → is_name n ≡ true
      → let (r, env') = run_unregister patterns name env in
        (r ≡ done tt)
        × Holds patterns env' (retain_others name config)
        × (resolve_addr patterns env' (some (named n))
            ≡ ite
                (text_discrete name n)
                (failed (not_registered n))
                (resolve_addr patterns env (some (named n))))
  run_unregister-resolves name n env config h w vn =
      let later = retain_others name config in
      let k =
        rewritten-Holds env config later h (retain_others-IsPrintable name config h.printable) in
      rw (run_unregister_done name env config h w) (
        refl,
        k,
        ground (
          arith,
          resolve_addr-named (rewritten env later) later n k vn,
          resolve_addr-named env config n h vn,
          find-retain_others name n config,
        ),
      )
