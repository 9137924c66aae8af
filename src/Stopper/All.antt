-- ===== src/Stopper/All.antt =====
-- Several processes at once: `MultiStopper` of src/stopper.rs.
use t2_bus.Base.{if◌then◌else◌, true, Bool-cases, inl, inr, ◌↔◌, List, [], ◌∷◌, ◌≡◌, refl, arith}
use t2_bus.Err.{ok}
use t2_bus.Stopper.{
  Process, runs, returned, died, Wait, answers, BasicStopper, await, stop, stops, join_all,
  multi_stop,
}

-- Each has answered with success.
abbrev pub AllOk : List Wait → Type 0
AllOk [] = Unit
AllOk (w ∷ ws) = (w ≡ answers (ok tt)) × AllOk ws

pub join_all_iff : (ws : List Wait) → (join_all ws ≡ answers (ok tt)) ↔ AllOk ws
unfolding join_all
join_all_iff [] = (λ e. tt, λ h. refl)
join_all_iff (w ∷ ws) =
    let rest = join_all_iff ws in (λ e. ground (arith, e, rest), λ h. ground (arith, h, rest))

-- What `stop` leaves of each stopper: its signal is sent if its process listens.
abbrev pub Signalled : List BasicStopper → List BasicStopper → Type 0
Signalled [] [] = Unit
Signalled (s ∷ ss) (t ∷ ts) =
    (t ≡ (if s.listens then record s { is_stopped = true; process = s.on_stop } else s))
    × Signalled ss ts
Signalled _ _ = ⊥

-- Each process listens and ends with success on the signal.
abbrev pub StopsWell : List BasicStopper → Type 0
StopsWell [] = Unit
StopsWell (s ∷ ss) = (s.listens ≡ true) × (s.on_stop ≡ returned (ok tt)) × StopsWell ss

stops-Signalled : (ss : List BasicStopper) → Signalled ss (stops ss).1
unfolding stops stop
stops-Signalled [] = tt
stops-Signalled (s ∷ ss) = elim (Bool-cases s.listens) [
  | inl e ↦ (ground (arith, e), stops-Signalled ss)
  | inr e ↦ (ground (arith, e), stops-Signalled ss)
]

await_iff : (p : Process) → (await p ≡ answers (ok tt)) ↔ (p ≡ returned (ok tt))
await_iff runs = (λ e. ground (arith, e), λ e. ground (arith, e))
await_iff (returned r) = (λ e. ground (arith, e), λ e. ground (arith, e))
await_iff (died t) = (λ e. ground (arith, e), λ e. ground (arith, e))

stops_iff : (ss : List BasicStopper) → AllOk (stops ss).0 ↔ StopsWell ss
unfolding stops stop
stops_iff [] = (λ h. tt, λ h. tt)
stops_iff (s ∷ ss) =
    let rest = stops_iff ss in
    let this = await_iff s.on_stop in
    (
      λ (e, h). ground (arith, e, h, rest, this),
      λ (l, o, h). (ground (arith, l, o, this), rest.1 h),
    )

-- Stopping several processes signals every one that listens, also where another one fails, and
-- succeeds exactly if each listens and ends with success.
pub multi_stop_iff :
    (ss : List BasicStopper)
    → Signalled ss (multi_stop ss).1 × (((multi_stop ss).0 ≡ answers (ok tt)) ↔ StopsWell ss)
unfolding multi_stop
multi_stop_iff ss =
    let joined = join_all_iff (stops ss).0 in
    let each = stops_iff ss in
    (stops-Signalled ss, (λ e. each.0 (joined.0 e), λ h. joined.1 (each.1 h)))
