-- ===== src/Server/Building.antt =====
-- What a builder (src/server/builder.rs) builds.
use t2_bus.Base.{
  if◌then◌else◌, Bool, true, false, List, [], ◌∷◌, ◌++◌, Option, none, some, ◌≡◌, ◌↔◌, refl, ap,
  sym, subst, arith,
}
use mathlib.Core.List.{append-nil, append_assoc}
use t2_bus.Err.{Result, ok, err, panic, ◌>>=◌}
use t2_bus.Server.Builder.{
  ListenerEnum, memory, tcp, unix, ServerBuilder, Task, listens, serves_core, Connector,
  memory_connector, new, has_memory, listen, listen_all, or_else, gather, with_core, build,
}
use t2_bus.Server.Asking.{
  Call, calls, memories, memories_none, memories_some, calls-memories, sockets, sockets_asked,
  memory_asked, calls-sockets, calls-has_memory,
}

abbrev pub connector_of : Bool → Option Connector
connector_of true = some memory_connector
connector_of false = none

-- The addresses can be bound.
abbrev pub AllBind : (ListenerEnum → Result (Unit {0})) → List ListenerEnum → Type 0
AllBind bind [] = Unit
AllBind bind (memory ∷ ls) = AllBind bind ls
AllBind bind (tcp addr ∷ ls) = (bind (tcp addr) ≡ ok tt) × AllBind bind ls
AllBind bind (unix addr ∷ ls) = (bind (unix addr) ≡ ok tt) × AllBind bind ls

module _ (bind : ListenerEnum → Result (Unit {0})) where
  abbrev result_of : ListenerEnum → Task × Option Connector
  result_of memory = (listens memory, some memory_connector)
  result_of (tcp addr) = (listens (tcp addr), none)
  result_of (unix addr) = (listens (unix addr), none)

  abbrev results_of : List ListenerEnum → List (Task × Option Connector)
  results_of [] = []
  results_of (l ∷ ls) = result_of l ∷ results_of ls

  abbrev pub tasks_of : List ListenerEnum → List Task
  tasks_of [] = []
  tasks_of (l ∷ ls) = listens l ∷ tasks_of ls

  listen_all_ok :
      (ls : List ListenerEnum) → AllBind bind ls → listen_all bind ls ≡ ok (results_of ls)
  unfolding listen_all listen
  listen_all_ok [] h = refl
  listen_all_ok (memory ∷ ls) h = rw (listen_all_ok ls h) refl
  listen_all_ok (tcp addr ∷ ls) (h, hs) = rw (h, listen_all_ok ls hs) refl
  listen_all_ok (unix addr ∷ ls) (h, hs) = rw (h, listen_all_ok ls hs) refl

  bind-ok :
      {A B : Type 0} (r : Result A) (f : A → Result B) (c : B)
      → (r >>= f) ≡ ok c
      → (a : A) × (r ≡ ok a) × (f a ≡ ok c)
  bind-ok (ok a) f c e = (a, refl, e)
  bind-ok (err x) f c e = ground (arith, e)
  bind-ok panic f c e = ground (arith, e)

  listen_all-AllBind :
      (ls : List ListenerEnum) (rs : List (Task × Option Connector))
      → listen_all bind ls ≡ ok rs
      → AllBind bind ls
  unfolding listen_all listen
  listen_all-AllBind [] rs e = tt
  listen_all-AllBind (memory ∷ ls) rs e =
      let (qs, f, g) = bind-ok (listen_all bind ls) (λ qs. ok (result_of memory ∷ qs)) rs e in
      listen_all-AllBind ls qs f
  listen_all-AllBind (tcp addr ∷ ls) rs e =
      let (l, m, n) =
        bind-ok (listen bind (tcp addr)) (λ l. listen_all bind ls >>= λ qs. ok (l ∷ qs)) rs e in
      let (a, b, c) = bind-ok (bind (tcp addr)) (λ a. ok (result_of (tcp addr))) l m in
      let (qs, f, g) = bind-ok (listen_all bind ls) (λ qs. ok (l ∷ qs)) rs n in
      (b, listen_all-AllBind ls qs f)
  listen_all-AllBind (unix addr ∷ ls) rs e =
      let (l, m, n) =
        bind-ok (listen bind (unix addr)) (λ l. listen_all bind ls >>= λ qs. ok (l ∷ qs)) rs e in
      let (a, b, c) = bind-ok (bind (unix addr)) (λ a. ok (result_of (unix addr))) l m in
      let (qs, f, g) = bind-ok (listen_all bind ls) (λ qs. ok (l ∷ qs)) rs n in
      (b, listen_all-AllBind ls qs f)

  gather-results :
      (ls : List ListenerEnum) (stoppers : List Task) (found : Option Connector)
      → gather bind (results_of ls) (stoppers, found)
        ≡ (stoppers ++ tasks_of ls, or_else bind found (connector_of (has_memory ls)))
  unfolding gather
  gather-results [] stoppers none = ap (λ ts. (ts, none)) (sym (append-nil stoppers))
  gather-results [] stoppers (some c) = ap (λ ts. (ts, some c)) (sym (append-nil stoppers))
  gather-results (memory ∷ ls) stoppers none = ground (
    arith,
    gather-results ls (stoppers ++ listens memory ∷ []) (some memory_connector),
    append_assoc stoppers (listens memory ∷ []) (tasks_of ls),
  )
  gather-results (memory ∷ ls) stoppers (some c) = ground (
    arith,
    gather-results ls (stoppers ++ listens memory ∷ []) (some c),
    append_assoc stoppers (listens memory ∷ []) (tasks_of ls),
  )
  gather-results (tcp addr ∷ ls) stoppers found = ground (
    arith,
    gather-results ls (stoppers ++ listens (tcp addr) ∷ []) found,
    append_assoc stoppers (listens (tcp addr) ∷ []) (tasks_of ls),
  )
  gather-results (unix addr ∷ ls) stoppers found = ground (
    arith,
    gather-results ls (stoppers ++ listens (unix addr) ∷ []) found,
    append_assoc stoppers (listens (unix addr) ∷ []) (tasks_of ls),
  )

  pub build-ok :
      (b : ServerBuilder)
      → AllBind bind b.listeners
      → build bind b
        ≡ ok (tasks_of b.listeners ++ serves_core ∷ [], connector_of (has_memory b.listeners))
  unfolding build
  build-ok b h = ground (arith, listen_all_ok b.listeners h, gather-results b.listeners [] none)

  pub build-AllBind :
      (b : ServerBuilder) (r : List Task × Option Connector)
      → build bind b ≡ ok r
      → AllBind bind b.listeners
  unfolding build
  build-AllBind b r e =
      let (rs, f, g) =
        bind-ok (listen_all bind b.listeners)
          (λ rs. ok (with_core bind (gather bind rs ([], none)))) r e in
      listen_all-AllBind b.listeners rs f

  -- A builder listens on every socket that it was told to, in the order of the calls, and on memory
  -- at most once, and that exactly if it was told to. It builds exactly if each socket can be opened.
  -- The stopper then covers every listener and the core behind them, and there is a connector exactly
  -- if memory is served.
  pub build-calls :
      (cs : List Call)
      → let ls = (calls cs new).listeners in
        (sockets ls ≡ sockets_asked cs)
        × (memories ls ≡ (if memory_asked cs then 1 else 0))
        × ((build bind (calls cs new)
              ≡ ok (tasks_of ls ++ serves_core ∷ [], connector_of (memory_asked cs)))
            ↔ AllBind bind ls)
        × (((r : List Task × Option Connector) × (build bind (calls cs new) ≡ ok r))
            ↔ AllBind bind ls)
  unfolding new
  build-calls cs =
      let has = calls-has_memory cs new in
      (
        calls-sockets cs new,
        ground (
          arith,
          has,
          calls-memories cs new (omega arith),
          memories_none (calls cs new).listeners,
          memories_some (calls cs new).listeners,
        ),
        (
          λ e. build-AllBind (calls cs new) _ e,
          λ h.
              subst
                (λ m.
                  build bind (calls cs new)
                  ≡ ok (tasks_of (calls cs new).listeners ++ serves_core ∷ [], connector_of m))
                has (build-ok (calls cs new) h),
        ),
        (
          λ (r, e). build-AllBind (calls cs new) r e,
          λ h. (
            (
              tasks_of (calls cs new).listeners ++ serves_core ∷ [],
              connector_of (has_memory (calls cs new).listeners),
            ),
            build-ok (calls cs new) h,
          ),
        ),
      )
