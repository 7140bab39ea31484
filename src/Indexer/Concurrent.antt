-- ===== src/Indexer/Concurrent.antt =====
-- The goroutines of the indexer's scans, step by step: the ticker of `loop` starts them, one at a
-- time holds the lock `scanMu`, and lookups may come between any two steps.
pub mod Interleaving
pub mod Sequential
pub mod Serving
use xns.Common.{ℕ, zero, suc, ◌≡◌, ◌≢◌, true, false, Error, Result, ok, err, Bytes}
use xns.Store.{Snapshot}
use xns.Indexer.{Answers, State}
use xns.Indexer.Scan.{scan_once}
use xns.Indexer.Server.{Server, is_deep_reorg}
use xns.Indexer.Storing.{snapshot_of}

-- Where the goroutine that holds the lock stands: in its first scan, behind the first scan with the
-- wallet being built again and scanned, or between the saving of a scan and its showing.
pub data Holder : Type 0 where
  nobody scanning rebuilding : Holder
  saved : State → Holder

-- `waiting` goroutines were started and have not come to the lock yet.
pub record Machine : Type 0 where
  pub server : Server
  pub waiting : ℕ
  pub holder : Holder

-- The goroutine that may save a scan.
pub data MaySave : Holder → Type 0 where
  first : MaySave scanning
  second : MaySave rebuilding

-- One step of one goroutine. A scan that comes back is one step, and one that never does takes none.
-- An error of the wallet, the daemon or the store ends it at any point.
pub data Step (address : Bytes) : Machine → Machine → Type 0 where
  ticks :
      (s : Server) (n : ℕ) (h : Holder)
      → Step address
          (record { server = s; waiting = n; holder = h })
          (record { server = s; waiting = suc n; holder = h })
  skips :
      (s : Server) (n : ℕ) (h : Holder)
      → h ≢ nobody
      → Step address
          (record { server = s; waiting = suc n; holder = h })
          (record { server = s; waiting = n; holder = h })
  locks :
      (s : Server) (n : ℕ)
      → Step address
          (record { server = s; waiting = suc n; holder = nobody })
          (record { server = s; waiting = n; holder = scanning })
  hides :
      (s : Server) (n : ℕ) (w : Answers) (e : Error)
      → scan_once w ≡ err e
      → is_deep_reorg e ≡ true
      → Step address
          (record { server = s; waiting = n; holder = scanning })
          (record { server = record s { ready = false }; waiting = n; holder = rebuilding })
  fails :
      (s : Server) (n : ℕ) (h : Holder)
      → MaySave h
      → Step address
          (record { server = s; waiting = n; holder = h })
          (record { server = s; waiting = n; holder = nobody })
  saves :
      (s : Server) (n : ℕ) (h : Holder) (w : Answers) (visible durable : State) (hash : Bytes)
      → MaySave h
      → scan_once w ≡ ok (visible, durable, hash)
      → Step address
          (record { server = s; waiting = n; holder = h })
          (record {
            server = record s { stored = snapshot_of address durable hash };
            waiting = n;
            holder = saved visible;
          })
  shows :
      (s : Server) (n : ℕ) (visible : State)
      → Step address
          (record { server = s; waiting = n; holder = saved visible })
          (record {
            server = record s { state = visible; ready = true };
            waiting = n;
            holder = nobody;
          })

pub data Steps (address : Bytes) : Machine → Machine → Type 0 where
  none_more : (m : Machine) → Steps address m m
  more : (m m' m'' : Machine) → Step address m m' → Steps address m' m'' → Steps address m m''
