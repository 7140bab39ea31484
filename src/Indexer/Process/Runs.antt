-- ===== src/Indexer/Process/Runs.antt =====
-- How many wallet processes of the indexer run.
use xns.Common.{
  ℕ, zero, suc, ◌+◌, ◌≡◌, refl, Bool, true, false, List, [], ◌∷◌, Bytes, Result, ok, arith,
}
use xns.Session.{Reply, yes, Event, ask, lift, ◌>>=◌, or_first}
use xns.Session.Balance.{IsStart, IsStop}
use xns.Session.Levels.{
  Leaves, Leaves-bind, Leaves-lift, Leaves-ask, Leaves-start, Leaves-stop, Leaves-or_first,
}
use xns.Network.{Addresses, protocol_address}
use xns.TxSet.Signature.{Crypto}
use xns.Indexer.Process.{
  Config, FileStatus, found, missing, unreadable, Call, make_dir, remove, free_port, start, stop,
  wait, get_address, generate_from_keys, outside, Steps, wait_wallet, stat, wallet_address_matches,
  remove_files, remove_wallet_files, is_protocol_wallet, generate, start_call, finish_wallet,
  with_process, protocol_wallet, rebuild_wallet,
}

pub data Kind : Type 0 where
  starting stopping other : Kind

abbrev pub kind : Call → Kind
kind (start log args) = starting
kind stop = stopping
kind _ = other

abbrev pub begun : {A : Type 0} → Kind → Reply A → ℕ
begun starting (yes a) = 1
begun _ r = 0

abbrev pub ended : Kind → ℕ
ended stopping = 1
ended _ = 0

-- The processes that an event starts, and those that it stops.
abbrev pub starts : Event outside → ℕ
starts e = begun (kind e.call) e.reply

abbrev pub stops : Event outside → ℕ
stops e = ended (kind e.call)

-- `n` processes before some steps, `k` after a result, and `e` after an error.
abbrev Runs : {A : Type 0} → ℕ → ℕ → ℕ → Steps A → Type 0
Runs n k e m = Leaves starts stops n k e m

the_stop : IsStop starts stops stop
the_stop = record { stopped = λ r. refl; no_start = λ r. refl }

Runs-bind :
    {A B : Type 0} {b n k e : ℕ} {m : Steps A} {f : A → Steps B}
    → Runs b n e m
    → ((a : A) → Runs n k e (f a))
    → Runs b k e (m >>= f)
Runs-bind {m = m} {f = f} hm hf = Leaves-bind starts stops m f hm hf

Runs-lift : {A : Type 0} {n : ℕ} (r : Result A) → Runs n n n (lift {A = A} r)
Runs-lift {n = n} r = Leaves-lift starts stops n r

Runs-ask : {n : ℕ} (c : Call) → kind c ≡ other → Runs n n n (ask c)
Runs-ask {n = n} c h = Leaves-ask starts stops n c (λ r. (rw h refl, rw h refl))

Runs-or_first :
    {A : Type 0} {n k e : ℕ} {m : Steps A} → Runs n k (e + 1) m → Runs n k e (or_first stop m)
Runs-or_first {k = k} {e = e} {m = m} h = Leaves-or_first starts stops k e stop m the_stop h

Runs-wait_wallet : {n : ℕ} (log : Bytes) → Runs n n n (wait_wallet log)
unfolding wait_wallet
Runs-wait_wallet log = Runs-bind (Runs-ask wait refl) (λ polls. Runs-lift _)

Runs-stat : {n e : ℕ} (path : Bytes) → Runs n n e (stat path)
unfolding stat
Runs-stat path = record { at = λ w past h. omega (arith, h) }

Runs-remove_files : {n : ℕ} (paths : List Bytes) → Runs n n n (remove_files paths)
unfolding remove_files
Runs-remove_files [] = Runs-lift (ok tt)
Runs-remove_files (path ∷ paths) =
    Runs-bind (Runs-ask (remove path) refl) (λ _. Runs-remove_files paths)

Runs-remove_wallet_files :
    {n : ℕ} (wallet_file : Bytes) → Runs n n n (remove_wallet_files wallet_file)
unfolding remove_wallet_files
Runs-remove_wallet_files wallet_file = Runs-remove_files _

module _ (c : Crypto) (a : Addresses) (cfg : Config) where
  Runs-is_protocol_wallet :
      {n : ℕ} (status : FileStatus) → Runs n n n (is_protocol_wallet c a cfg status)
  unfolding is_protocol_wallet wallet_address_matches
  Runs-is_protocol_wallet found =
      Runs-bind (Runs-lift _)
        (λ want. Runs-bind (Runs-ask get_address refl) (λ address. Runs-lift _))
  Runs-is_protocol_wallet missing = Runs-lift _
  Runs-is_protocol_wallet unreadable = Runs-lift _

  Runs-generate : {n : ℕ} (status : FileStatus) → Runs n n n (generate c a cfg status)
  unfolding generate
  Runs-generate missing =
      Runs-bind (Runs-lift (protocol_address c a cfg.stagenet))
        (λ address. Runs-ask (generate_from_keys _ _ address _) refl)
  Runs-generate found = Runs-lift _
  Runs-generate unreadable = Runs-lift _

  start_call-IsStart :
      (port : ℕ) (status : FileStatus) → IsStart starts stops (start_call c a cfg port status)
  unfolding start_call
  start_call-IsStart port found = record {
    started = λ a. refl;
    failed = λ e. refl;
    no_stop = λ r. refl;
  }
  start_call-IsStart port missing = record {
    started = λ a. refl;
    failed = λ e. refl;
    no_stop = λ r. refl;
  }
  start_call-IsStart port unreadable = record {
    started = λ a. refl;
    failed = λ e. refl;
    no_stop = λ r. refl;
  }

  Runs-finish_wallet :
      {n : ℕ} (again : Steps ℕ) (port : ℕ) (matches : Bool)
      → Runs n (n + 1) n again
      → Runs (n + 1) (n + 1) n (finish_wallet c a cfg again port matches)
  unfolding finish_wallet lift
  Runs-finish_wallet {n = n} again port false h =
      Runs-bind (Leaves-stop starts stops n n stop the_stop)
        (λ _. Runs-bind (Runs-remove_wallet_files _) (λ _. h))
  Runs-finish_wallet {n = n} again port true h = Runs-bind (Runs-stat _) (λ status.
      Runs-bind (Runs-or_first (Runs-generate status)) (λ _. record { at = λ w past k. k }))

  Runs-with_process :
      {n : ℕ} (again : Steps ℕ) (port : ℕ)
      → Runs n (n + 1) n again
      → Runs (n + 1) (n + 1) n (with_process c a cfg again port)
  unfolding with_process
  Runs-with_process again port h = Runs-bind (Runs-or_first (Runs-wait_wallet _)) (λ _.
      Runs-bind (Runs-stat _) (λ status.
        Runs-bind (Runs-or_first (Runs-is_protocol_wallet status))
          (λ matches. Runs-finish_wallet again port matches h)))

  Runs-protocol_wallet : (fuel n : ℕ) → Runs n (n + 1) n (protocol_wallet c a cfg fuel)
  unfolding protocol_wallet lift
  Runs-protocol_wallet zero n = record { at = λ w past h. tt }
  Runs-protocol_wallet (suc fuel) n = Runs-bind (Runs-ask (make_dir _) refl) (λ _.
      Runs-bind (Runs-ask free_port refl) (λ port. Runs-bind (Runs-stat _) (λ status.
        Runs-bind
          (Leaves-start starts stops n (start_call c a cfg port status)
            (start_call-IsStart port status))
          (λ _.
            Runs-with_process (protocol_wallet c a cfg fuel) port (Runs-protocol_wallet fuel n)))))

  -- Whatever is answered: from any number of running wallet processes, protocolWallet leaves one more
  -- where it gives a port, and the same number where it fails. From one more than that number,
  -- rebuildWallet leaves as many again where it succeeds, and the number itself where it fails.
  pub wallet_processes :
      (fuel n : ℕ)
      → Leaves starts stops n (n + 1) n (protocol_wallet c a cfg fuel)
        × Leaves starts stops (n + 1) (n + 1) n (rebuild_wallet c a cfg fuel)
  unfolding rebuild_wallet
  wallet_processes fuel n = (
    Runs-protocol_wallet fuel n,
    Runs-bind (Leaves-stop starts stops n n stop the_stop)
        (λ _. Runs-bind (Runs-remove_wallet_files _) (λ _. Runs-protocol_wallet fuel n)),
  )
