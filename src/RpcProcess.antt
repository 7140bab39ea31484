-- ===== src/RpcProcess.antt =====
-- `rpcProcess` of pkg/claim/claim.go and pkg/indexer/indexer.go: a wallet's process with its log
-- file, from its start to its end. `freePort` finds the port that it is given.
pub mod Phases
pub mod Lifecycle
use xns.Common.{
  ℕ, Bool, true, false, not, ◌&&◌, Option, none, some, List, ◌∷◌, Bytes, ok, if◌then◌else◌,
}
use xns.Session.{Outside, Reply, yes, no, Session, ask, tell, lift, ◌>>=◌, ◌>>◌, deferred, or_first}

-- The standard library's calls. A process is interrupted and killed by signals, and its end is
-- read from the channel `done`: at once, within ten seconds, or however long it takes.
pub data Call : Type 0 where
  open_log : Bytes → Call
  start : List Bytes → Call
  close_log : Call
  poll_done wait_done await_done : Call
  interrupt kill : Call
  -- a socket on a port that the system chooses
  listen close_listener : Call

abbrev pub Answer : Call → Type 0
Answer poll_done = Bool
Answer wait_done = Bool
Answer listen = ℕ
Answer _ = Unit {0}

abbrev pub outside : Outside
outside = record { Call = Call; Answer = Answer }

abbrev pub Steps : Type 0 → Type 0
Steps A = Session outside A

-- Whether the command and the log file are there, and whether `stopOnce` has run.
pub record RpcProcess : Type 0 where
  pub cmd : Bool
  pub log : Bool
  pub stopped : Bool

-- `startWalletRPC` behind its list of arguments.
unfoldable pub start_process : Bytes → List Bytes → Steps RpcProcess
start_process log_path args = do
  ask (open_log log_path)
  or_first close_log (ask (start args))
  lift (ok (record { cmd = true; log = true; stopped = false }))

abbrev pub is_done : Reply Bool → Bool
is_done (yes b) = b
is_done (no e) = false

-- A `select` with `<-p.done`: at once (`default`), or with the timer.
unfoldable pub poll : Steps Bool
poll w past =
    let reply = w past poll_done in
    (ok (is_done reply), record { call = poll_done; reply = reply } ∷ past)

unfoldable pub wait : Steps Bool
wait w past =
    let reply = w past wait_done in
    (ok (is_done reply), record { call = wait_done; reply = reply } ∷ past)

unfoldable pub interrupt_unless : Bool → Steps (Unit {0})
interrupt_unless true = lift (ok tt)
interrupt_unless false = tell interrupt

unfoldable pub kill_unless : Bool → Steps (Unit {0})
kill_unless true = lift (ok tt)
kill_unless false = tell kill >> tell await_done

unfoldable pub close_if : Bool → Steps (Unit {0})
close_if true = tell close_log
close_if false = lift (ok tt)

-- What `stopOnce` runs.
unfoldable pub stop_once : RpcProcess → Steps (Unit {0})
stop_once p = do
  gone ← poll
  interrupt_unless gone
  in_time ← wait
  kill_unless in_time
  close_if p.log

unfoldable pub stop : Option RpcProcess → Steps (Option RpcProcess)
stop none = lift (ok none)
stop (some p) =
    if p.cmd && not p.stopped
    then (do stop_once p; lift (ok (some (record { cmd = p.cmd; log = p.log; stopped = true }))))
    else lift (ok (some p))

unfoldable pub free_port : Steps ℕ
free_port = do port ← ask listen; deferred close_listener (lift (ok port))
