-- ===== src/Claim/Processes.antt =====
-- Every wallet process that a claim starts is stopped.
use xns.Common.{
  ℕ, ◌≡◌, refl, List, [], ◌∷◌, Option, none, some, Bytes, Error, Result, Bool, true, arith,
}
use xns.Session.{yes, no, Event, World, ask, tell, lift, ◌>>◌, deferred}
use xns.Session.Balance.{
  total, IsNeutral, IsStart, IsStop, StopsOnError, Returns, IsReturned, IsBalanced-bind,
  IsBalanced-ask, IsBalanced-tell, IsBalanced-bracket, IsBalanced-deferred, IsBalanced-running,
  StopsOnError-bind, StopsOnError-or_first, Returns-bind, Returns-ask,
}
use xns.Network.{Addresses}
use xns.TxSet.Signature.{Crypto}
use xns.Claim.{Config}
use xns.Claim.Calls.{
  remove_all, make_dir, make_temp_dir, free_port, copy_wallet_cache, Wallet, full, watch, Poll,
  Call, start, stop, wait, generate_from_keys, store, outside, wait_loop,
}
use xns.Claim.Run.{watch_keys, Steps, wait_wallet, make_watch, with_full, with_dir, run}
use xns.Claim.Balance.{
  Kind, starting, stopping, count, Balanced, Balanced-ask, Balanced-wait_wallet, Balanced-open_full,
  Balanced-check_watch, Balanced-pay, Balanced-make_watch,
}

abbrev match : Wallet → Wallet → ℕ
match full full = 1
match watch watch = 1
match _ _ = 0

-- The processes of a wallet that an event starts, and those that it stops.
abbrev begun : Wallet → Kind → Bool → ℕ
begun w (starting v) true = match v w
begun w _ _ = 0

abbrev ended : Wallet → Kind → Bool → ℕ
ended w (stopping v) b = match v w
ended w _ _ = 0

abbrev pub starts : Wallet → Event outside → ℕ
starts w = count (begun w)

abbrev pub stops : Wallet → Event outside → ℕ
stops w = count (ended w)

-- What is in balance for the processes of a wallet.
abbrev Keeps : {A : Type 0} → Wallet → Steps A → Type 0
Keeps w m = Balanced (begun w) (ended w) m

own_start :
    (w : Wallet) (log : Bytes) (args : List Bytes) → IsStart (starts w) (stops w) (start w log args)
own_start full log args = record { started = λ a. refl; failed = λ e. refl; no_stop = λ r. refl }
own_start watch log args = record { started = λ a. refl; failed = λ e. refl; no_stop = λ r. refl }

own_stop : (w : Wallet) → IsStop (starts w) (stops w) (stop w)
own_stop full = record { stopped = λ r. refl; no_start = λ r. refl }
own_stop watch = record { stopped = λ r. refl; no_start = λ r. refl }

full_other :
    (log : Bytes) (args : List Bytes) → IsNeutral (starts full) (stops full) (start watch log args)
full_other log args (yes u) = (refl, refl)
full_other log args (no e) = (refl, refl)

watch_other :
    (log : Bytes) (args : List Bytes) → IsNeutral (starts watch) (stops watch) (start full log args)
watch_other log args (yes u) = (refl, refl)
watch_other log args (no e) = (refl, refl)

-- A process between its start and its deferred stop.
Keeps-bracket :
    {A : Type 0} (w v : Wallet) (log : Bytes) (args : List Bytes) (m : Steps A)
    → Keeps w m
    → Keeps w (ask (start v log args) >> deferred (stop v) m)
Keeps-bracket full full log args m h =
    IsBalanced-bracket _ _ (start full log args) (stop full) m (own_start full log args)
      (own_stop full) h
Keeps-bracket watch watch log args m h =
    IsBalanced-bracket _ _ (start watch log args) (stop watch) m (own_start watch log args)
      (own_stop watch) h
Keeps-bracket full watch log args m h =
    IsBalanced-bind _ _ _ _ (IsBalanced-ask _ _ (start watch log args) (full_other log args))
      (λ _. IsBalanced-deferred _ _ (stop watch) m (λ r. (refl, refl)) h)
Keeps-bracket watch full log args m h =
    IsBalanced-bind _ _ _ _ (IsBalanced-ask _ _ (start full log args) (watch_other log args))
      (λ _. IsBalanced-deferred _ _ (stop full) m (λ r. (refl, refl)) h)

wait_loop-IsReturned :
    (label log : Bytes) (last : Option Error) (polls : List Poll)
    → IsReturned (starts watch) (stops watch) (wait_loop label log last polls)
unfolding wait_loop
wait_loop-IsReturned label log last [] = tt
wait_loop-IsReturned label log last (Poll.exited ∷ polls) = tt
wait_loop-IsReturned label log last (Poll.ready ∷ polls) = tt
wait_loop-IsReturned label log last (Poll.failed e ∷ polls) =
    wait_loop-IsReturned label log (some e) polls

Returns-wait_wallet :
    (v : Wallet) (label log : Bytes)
    → Returns (starts watch) (stops watch) (wait_wallet v label log)
unfolding wait_wallet lift
Returns-wait_wallet v label log =
    Returns-bind _ _ _ _ (Returns-ask _ _ (wait v))
      (λ polls. record { at = λ w past. wait_loop-IsReturned label log none polls })

-- The process that makes the temporary wallet's files.
module _ (cfg : Config) (log address view : Bytes) (height : ℕ) where
  abbrev generate : Call
  generate = generate_from_keys watch (watch_keys cfg address view height)

  StopsOnError-make_watch :
      StopsOnError (starts watch) (stops watch) (make_watch cfg log address view height)
  unfolding make_watch
  StopsOnError-make_watch =
      StopsOnError-bind _ _ _ _
        (StopsOnError-or_first _ _ (stop watch) _ (own_stop watch)
          (Balanced-wait_wallet (begun watch) (ended watch) (λ b. refl) (λ b. refl) watch _ _)
          (Returns-wait_wallet watch _ _))
        (λ _.
          StopsOnError-bind _ _ _ _
            (StopsOnError-or_first _ _ (stop watch) _ (own_stop watch)
              (Balanced-ask (begun watch) (ended watch) (λ b. refl) (λ b. refl) generate refl)
              (Returns-ask _ _ generate))
            (λ _.
              StopsOnError-or_first _ _ (stop watch) _ (own_stop watch)
                (Balanced-ask (begun watch) (ended watch) (λ b. refl) (λ b. refl) (store watch)
                  refl)
                (Returns-ask _ _ (store watch))))

  Keeps-made :
      (w : Wallet) (args : List Bytes)
      → Keeps w (
          ask (start watch log args)
          >> (make_watch cfg log address view height >> tell (stop watch)))
  Keeps-made watch args =
      IsBalanced-running _ _ (start watch log args) (stop watch) _ (own_start watch log args)
        (own_stop watch) StopsOnError-make_watch
  Keeps-made full args =
      IsBalanced-bind _ _ _ _ (IsBalanced-ask _ _ (start watch log args) (full_other log args))
        (λ _.
          IsBalanced-bind _ _ _ _
            (Balanced-make_watch (begun full) (ended full) (λ b. refl) (λ b. refl) cfg log address
              view height (λ r. (refl, refl)))
            (λ _. IsBalanced-tell _ _ (stop watch) (λ r. (refl, refl))))

module _ (c : Crypto) (a : Addresses) (draws : List (Result Bytes)) (cfg : Config) (payload : Bytes)
    (w : Wallet) where
  Keeps-with_full : (dir : Bytes) (port : ℕ) → Keeps w (with_full c a draws cfg payload dir port)
  unfolding with_full
  Keeps-with_full dir port =
      IsBalanced-bind _ _ _ _ (Balanced-open_full (begun w) (ended w) (λ b. refl) (λ b. refl) _)
        (λ found.
          IsBalanced-bind _ _ _ _
            (Balanced-ask (begun w) (ended w) (λ b. refl) (λ b. refl) (make_dir _) refl)
            (λ _. IsBalanced-bind _ _ _ _ (Keeps-made cfg _ _ _ _ w _) (λ _.
              IsBalanced-bind _ _ _ _
                (Balanced-ask (begun w) (ended w) (λ b. refl) (λ b. refl) (copy_wallet_cache _ _)
                  refl)
                (λ _. Keeps-bracket w watch _ _ _ (
                  IsBalanced-bind _ _ _ _
                    (Balanced-check_watch (begun w) (ended w) (λ b. refl) (λ b. refl) _ _ _ _)
                    (λ _.
                      Balanced-pay (begun w) (ended w) (λ b. refl) (λ b. refl) c a draws cfg payload
                        _ (λ b. refl) (λ b. refl)))))))

  Keeps-with_dir : (dir : Bytes) → Keeps w (with_dir c a draws cfg payload dir)
  unfolding with_dir
  Keeps-with_dir dir =
      IsBalanced-bind _ _ _ _
        (Balanced-ask (begun w) (ended w) (λ b. refl) (λ b. refl) free_port refl)
        (λ full_port.
          IsBalanced-bind _ _ _ _
            (Balanced-ask (begun w) (ended w) (λ b. refl) (λ b. refl) free_port refl)
            (λ watch_port. Keeps-bracket w full _ _ _ (Keeps-with_full dir watch_port)))

  Keeps-run : Keeps w (run c a draws cfg payload)
  unfolding run
  Keeps-run =
      IsBalanced-bind _ _ _ _
        (Balanced-ask (begun w) (ended w) (λ b. refl) (λ b. refl) make_temp_dir refl)
        (λ dir. IsBalanced-deferred _ _ (remove_all dir) _ (λ r. (refl, refl)) (Keeps-with_dir dir))

  -- Whatever the wallets, the processes and the file system reply, and wherever it fails, a claim stops
  -- each of its two wallets' processes as often as it has started them.
  pub run-balanced :
      (world : World outside)
      → let (result, trace) = run c a draws cfg payload world [] in
        total (starts w) (stops w) (starts w) trace ≡ total (starts w) (stops w) (stops w) trace
  run-balanced world = omega (arith, Keeps-run.at world [])
