-- ===== src/Server/Asking.antt =====
-- What calls of a builder (src/server/builder.rs) ask for.
use t2_bus.Base.{
  ℕ, ◌+◌, ◌≤◌, Bool, true, false, ◌||◌, List, [], ◌∷◌, ◌++◌, ◌≡◌, refl, ap, sym, arith,
}
use mathlib.Core.List.{append-nil, append_assoc}
use t2_bus.Text.{Text}
use t2_bus.Server.Builder.{
  ListenerEnum, memory, tcp, unix, ServerBuilder, serve_unix_socket, serve_tcp, serve_memory,
  has_memory,
}

-- A call of the builder.
pub data Call : Type 0 where
  on_memory : Call
  on_tcp on_unix : Text → Call

abbrev pub calls : List Call → ServerBuilder → ServerBuilder
calls [] b = b
calls (on_memory ∷ cs) b = calls cs (serve_memory b)
calls (on_tcp addr ∷ cs) b = calls cs (serve_tcp addr b)
calls (on_unix addr ∷ cs) b = calls cs (serve_unix_socket addr b)

abbrev pub memories : List ListenerEnum → ℕ
memories [] = 0
memories (memory ∷ ls) = 1 + memories ls
memories (tcp addr ∷ ls) = memories ls
memories (unix addr ∷ ls) = memories ls

memories-append : (ls ms : List ListenerEnum) → memories (ls ++ ms) ≡ memories ls + memories ms
memories-append [] ms = omega arith
memories-append (memory ∷ ls) ms = omega (arith, memories-append ls ms)
memories-append (tcp addr ∷ ls) ms = memories-append ls ms
memories-append (unix addr ∷ ls) ms = memories-append ls ms

pub memories_none : (ls : List ListenerEnum) → has_memory ls ≡ false → memories ls ≡ 0
memories_none [] h = refl
memories_none (memory ∷ ls) h = ground (arith, h)
memories_none (tcp addr ∷ ls) h = memories_none ls h
memories_none (unix addr ∷ ls) h = memories_none ls h

pub memories_some : (ls : List ListenerEnum) → has_memory ls ≡ true → 1 ≤ memories ls
memories_some [] h = ground (arith, h)
memories_some (memory ∷ ls) h = omega arith
memories_some (tcp addr ∷ ls) h = memories_some ls h
memories_some (unix addr ∷ ls) h = memories_some ls h

pub calls-memories :
    (cs : List Call) (b : ServerBuilder)
    → memories b.listeners ≤ 1
    → memories (calls cs b).listeners ≤ 1
unfolding serve_memory serve_tcp serve_unix_socket
calls-memories [] b h = h
calls-memories (on_memory ∷ cs) b h =
    calls-memories cs (serve_memory b)
      (ground (arith, h, memories_none b.listeners, memories-append b.listeners (memory ∷ [])))
calls-memories (on_tcp addr ∷ cs) b h =
    calls-memories cs (serve_tcp addr b)
      (ground (arith, h, memories-append b.listeners (tcp addr ∷ [])))
calls-memories (on_unix addr ∷ cs) b h =
    calls-memories cs (serve_unix_socket addr b)
      (ground (arith, h, memories-append b.listeners (unix addr ∷ [])))

-- The sockets among listeners, and those that calls ask for, and whether they ask for memory.
abbrev pub sockets : List ListenerEnum → List ListenerEnum
sockets [] = []
sockets (memory ∷ ls) = sockets ls
sockets (tcp addr ∷ ls) = tcp addr ∷ sockets ls
sockets (unix addr ∷ ls) = unix addr ∷ sockets ls

abbrev pub sockets_asked : List Call → List ListenerEnum
sockets_asked [] = []
sockets_asked (on_memory ∷ cs) = sockets_asked cs
sockets_asked (on_tcp addr ∷ cs) = tcp addr ∷ sockets_asked cs
sockets_asked (on_unix addr ∷ cs) = unix addr ∷ sockets_asked cs

abbrev pub memory_asked : List Call → Bool
memory_asked [] = false
memory_asked (on_memory ∷ cs) = true
memory_asked (on_tcp addr ∷ cs) = memory_asked cs
memory_asked (on_unix addr ∷ cs) = memory_asked cs

sockets-append : (ls ms : List ListenerEnum) → sockets (ls ++ ms) ≡ sockets ls ++ sockets ms
sockets-append [] ms = refl
sockets-append (memory ∷ ls) ms = sockets-append ls ms
sockets-append (tcp addr ∷ ls) ms = ap (λ l. tcp addr ∷ l) (sockets-append ls ms)
sockets-append (unix addr ∷ ls) ms = ap (λ l. unix addr ∷ l) (sockets-append ls ms)

has_memory-append :
    (ls ms : List ListenerEnum) → has_memory (ls ++ ms) ≡ (has_memory ls || has_memory ms)
has_memory-append [] ms = refl
has_memory-append (memory ∷ ls) ms = refl
has_memory-append (tcp addr ∷ ls) ms = has_memory-append ls ms
has_memory-append (unix addr ∷ ls) ms = has_memory-append ls ms

pub calls-sockets :
    (cs : List Call) (b : ServerBuilder)
    → sockets (calls cs b).listeners ≡ sockets b.listeners ++ sockets_asked cs
unfolding serve_memory serve_tcp serve_unix_socket
calls-sockets [] b = sym (append-nil (sockets b.listeners))
calls-sockets (on_memory ∷ cs) b = ground (
  arith,
  calls-sockets cs (serve_memory b),
  sockets-append b.listeners (memory ∷ []),
  append-nil (sockets b.listeners),
)
calls-sockets (on_tcp addr ∷ cs) b = ground (
  arith,
  calls-sockets cs (serve_tcp addr b),
  sockets-append b.listeners (tcp addr ∷ []),
  append_assoc (sockets b.listeners) (tcp addr ∷ []) (sockets_asked cs),
)
calls-sockets (on_unix addr ∷ cs) b = ground (
  arith,
  calls-sockets cs (serve_unix_socket addr b),
  sockets-append b.listeners (unix addr ∷ []),
  append_assoc (sockets b.listeners) (unix addr ∷ []) (sockets_asked cs),
)

pub calls-has_memory :
    (cs : List Call) (b : ServerBuilder)
    → has_memory (calls cs b).listeners ≡ (has_memory b.listeners || memory_asked cs)
unfolding serve_memory serve_tcp serve_unix_socket
calls-has_memory [] b = ground (arith)
calls-has_memory (on_memory ∷ cs) b =
    ground
      (arith, calls-has_memory cs (serve_memory b), has_memory-append b.listeners (memory ∷ []))
calls-has_memory (on_tcp addr ∷ cs) b =
    ground
      (arith, calls-has_memory cs (serve_tcp addr b), has_memory-append b.listeners (tcp addr ∷ []))
calls-has_memory (on_unix addr ∷ cs) b = ground (
  arith,
  calls-has_memory cs (serve_unix_socket addr b),
  has_memory-append b.listeners (unix addr ∷ []),
)
