-- ===== src/RpcProcess/Phases.antt =====
-- The phases of a wallet's process, and what is allowed in each.
use xns.Common.{ℕ, zero, suc, ◌≡◌, Bool, true, false, Option, none, some, List, Bytes, ok}
use xns.Session.{Reply, yes, no, Trace, World, lift, ◌>>=◌}
use xns.Session.Phases
use xns.RpcProcess.{
  Call, outside, open_log, start, close_log, poll_done, wait_done, await_done, interrupt, kill,
  Answer, Steps, RpcProcess, start_process, is_done, stop,
}

-- Neither a log nor a process; a log alone; then both: the process runs, is interrupted, is late
-- after its interrupt, is killed, or is known to have ended.
pub data Phase : Type 0 where
  idle logged running interrupted late killed ended : Phase

abbrev pub done_or : Reply Bool → Option Phase → Option Phase
done_or (yes true) other = some ended
done_or (yes false) other = other
done_or (no e) other = other

-- What is allowed in a phase, and where it leads: a process is only interrupted as long as it is not
-- known to have ended, only waited for behind its interrupt or its end, only killed where it is late
-- after the interrupt, and its log is only closed behind its end.
abbrev pub next : (c : Call) → Reply (Answer c) → Phase → Option Phase
next (open_log path) (yes u) idle = some logged
next (open_log path) (no e) idle = some idle
next (start args) (yes u) logged = some running
next (start args) (no e) logged = some logged
next close_log r logged = some idle
next close_log r ended = some idle
next poll_done r running = done_or r (some running)
next interrupt r running = some interrupted
next wait_done r interrupted = done_or r (some late)
next wait_done r ended = done_or r none
next kill r late = some killed
next await_done r killed = some ended
next _ _ _ = none

-- The phase behind a trace that begins without log and process, if all of it was allowed.
abbrev pub phase : Trace outside → Option Phase
phase past = Phases.phase next idle past

-- The channel `done` stays closed: a process that is known to have ended is found so again.
abbrev pub StaysDone : World outside → Type 0
StaysDone w = (past : Trace outside) → phase past ≡ some ended → is_done (w past wait_done) ≡ true

-- A process as it is started, and as it is stopped.
abbrev pub fresh : RpcProcess
fresh = record { cmd = true; log = true; stopped = false }

abbrev pub finished : RpcProcess
finished = record { cmd = true; log = true; stopped = true }

-- `stop`, a number of times.
abbrev pub stop_times : ℕ → Option RpcProcess → Steps (Option RpcProcess)
stop_times zero p = lift (ok p)
stop_times (suc n) p = stop p >>= stop_times n

-- A process is started, and stopped a number of times.
abbrev pub start_and_stop : ℕ → Bytes → List Bytes → Steps (Option RpcProcess)
start_and_stop n log_path args = start_process log_path args >>= λ p. stop_times n (some p)
