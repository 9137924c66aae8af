-- ===== src/Stopper.antt =====
-- src/stopper.rs: handles that stop processes and wait for them.
pub mod All
use t2_bus.Base.{if◌then◌else◌, Bool, true, false, List, [], ◌∷◌}
use t2_bus.Text.{Text}
use t2_bus.Err.{BusError, Result, ok, err, panic, channel_closed, internal_error}

-- How a spawned process stands: it runs, it returned, or it panicked or was aborted, which waiting
-- for it reports with a text.
pub data Process : Type 0 where
  runs : Process
  returned : Result (Unit {0}) → Process
  died : Text → Process

-- What comes of waiting: no answer as long as the process runs.
pub data Wait : Type 0 where
  waits : Wait
  answers : Result (Unit {0}) → Wait

-- `listens` tells whether the process still holds the receiver of the stop signal, `is_stopped`
-- whether the signal was sent, and `on_stop` how the process ends on the signal.
pub record BasicStopper : Type 0 where
  pub listens : Bool
  pub is_stopped : Bool
  pub process : Process
  pub on_stop : Process

-- `self.join_handle.await??`
abbrev pub await : Process → Wait
await runs = waits
await (returned r) = answers r
await (died e) = answers (err (internal_error e))

unfoldable pub join : BasicStopper → Wait
join s = await s.process

unfoldable pub stop : BasicStopper → Wait × BasicStopper
stop s =
    if s.listens
    then (await s.on_stop, record s { is_stopped = true; process = s.on_stop })
    else (answers (err channel_closed), s)

-- `join_all` and `collect`: an answer when every one has answered, the first error if there is one.
abbrev pub after : Result (Unit {0}) → Result (Unit {0}) → Result (Unit {0})
after (ok _) r = r
after (err e) r = err e
after panic r = panic

abbrev pub both : Wait → Wait → Wait
both (answers r) (answers s) = answers (after r s)
both _ _ = waits

unfoldable pub join_all : List Wait → Wait
join_all [] = answers (ok tt)
join_all (w ∷ ws) = both w (join_all ws)

-- `MultiStopper` is the list of its stoppers.
unfoldable pub joins : List BasicStopper → List Wait
unfolding join
joins [] = []
joins (s ∷ ss) = join s ∷ joins ss

unfoldable pub multi_join : List BasicStopper → Wait
unfolding joins join_all
multi_join ss = join_all (joins ss)

unfoldable pub stops : List BasicStopper → List Wait × List BasicStopper
unfolding stop
stops [] = ([], [])
stops (s ∷ ss) = let (w, s') = stop s in let (ws, ss') = stops ss in (w ∷ ws, s' ∷ ss')

unfoldable pub multi_stop : List BasicStopper → Wait × List BasicStopper
unfolding stops join_all
multi_stop ss = let (ws, ss') = stops ss in (join_all ws, ss')
