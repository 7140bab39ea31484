-- ===== src/Indexer/Concurrent/Sequential.antt =====
-- A call of scanAndStore that comes to its end is a sequence of the steps.
use xns.Common.{
  ℕ, suc, ◌≡◌, ◌≢◌, refl, inl, inr, true, false, Bool-cases, Bytes, Result, ok, err, panic, stuck,
  ◌>>◌,
}
use xns.Indexer.{Answers, State}
use xns.Indexer.Scan.{scan_once}
use xns.Indexer.Server.{Server, is_deep_reorg, after_scan, scan, store_scan, scan_and_store}
use xns.Indexer.Concurrent.{
  Holder, nobody, scanning, rebuilding, Machine, MaySave, first, second, Steps, locks, skips, hides,
  fails, saves, shows, none_more, more,
}

-- The code came back, with or without an error.
abbrev pub IsBack : {A : Type 0} → Result A → Type 0
IsBack (ok a) = Unit {0}
IsBack (err e) = Unit {0}
IsBack panic = true ≡ false
IsBack stuck = true ≡ false

abbrev at_point : Server → ℕ → Holder → Machine
at_point s n h = record { server = s; waiting = n; holder = h }

module _ (address : Bytes) (n : ℕ) where
  gives_up :
      (s : Server) (h : Holder) → MaySave h → Steps address (at_point s n h) (at_point s n nobody)
  gives_up s h may = more _ _ _ (fails s n h may) (none_more _)

  saved_steps :
      (s : Server) (h : Holder) (w : Answers) (found : Result (State × State × Bytes))
      (done : Result (Unit {0}))
      → MaySave h
      → scan_once w ≡ found
      → IsBack (store_scan address done (s, found)).1
      → Steps address (at_point s n h) (at_point (store_scan address done (s, found)).0 n nobody)
  unfolding store_scan
  saved_steps s h w (ok (visible, durable, hash)) (ok u) may e back =
      more _ _ _ (saves s n h w visible durable hash may e)
        (more _ _ _ (shows _ n visible) (none_more _))
  saved_steps s h w (ok (visible, durable, hash)) (err x) may e back = gives_up s h may
  saved_steps s h w (ok (visible, durable, hash)) panic may e back = cc
  saved_steps s h w (ok (visible, durable, hash)) stuck may e back = cc
  saved_steps s h w (err x) done may e back = gives_up s h may
  saved_steps s h w panic done may e back = cc
  saved_steps s h w stuck done may e back = cc

  rebuilt_steps :
      (s : Server) (rebuilt : Result (Unit {0})) (again : Answers) (done : Result (Unit {0}))
      → IsBack (store_scan address done (s, rebuilt >> scan_once again)).1
      → Steps address
          (at_point s n rebuilding)
          (at_point (store_scan address done (s, rebuilt >> scan_once again)).0 n nobody)
  unfolding store_scan
  rebuilt_steps s (ok u) again done back =
      saved_steps s rebuilding again (scan_once again) done second refl back
  rebuilt_steps s (err x) again done back = gives_up s rebuilding second
  rebuilt_steps s panic again done back = cc
  rebuilt_steps s stuck again done back = cc

  scanned_steps :
      (s : Server) (w again : Answers) (rebuilt done : Result (Unit {0}))
      (found : Result (State × State × Bytes))
      → scan_once w ≡ found
      → IsBack (store_scan address done (after_scan s rebuilt again found)).1
      → Steps address
          (at_point s n scanning)
          (at_point (store_scan address done (after_scan s rebuilt again found)).0 n nobody)
  unfolding after_scan
  scanned_steps s w again rebuilt done (ok r) e back =
      saved_steps s scanning w (ok r) done first e back
  scanned_steps s w again rebuilt done (err x) e back = elim (Bool-cases (is_deep_reorg x)) [
    | inl deep ↦
        rw (deep, after_scan)
          (more _ _ _ (hides s n w x e deep) (
            rebuilt_steps (record s { ready = false }) rebuilt again done
              (rw (deep, after_scan) at back)))
    | inr other ↦
        rw (other, after_scan)
          (saved_steps s scanning w (err x) done first e (rw (other, after_scan) at back))
  ]
  scanned_steps s w again rebuilt done panic e back =
      saved_steps s scanning w panic done first e back
  scanned_steps s w again rebuilt done stuck e back =
      saved_steps s scanning w stuck done first e back

  -- A call of scanAndStore that does not panic does what a sequence of the goroutine's steps does: it
  -- takes the lock, or skips where another goroutine holds it, and comes to the same server.
  pub scan_and_store-Steps :
      (s : Server) (w again : Answers) (rebuilt done : Result (Unit {0})) (h : Holder)
      → h ≢ nobody
      → IsBack (scan_and_store true address s w rebuilt again done).1
      → Steps address
          (at_point s (suc n) nobody)
          (at_point (scan_and_store true address s w rebuilt again done).0 n nobody)
        × Steps address
            (at_point s (suc n) h)
            (at_point (scan_and_store false address s w rebuilt again done).0 n h)
  unfolding scan_and_store scan
  scan_and_store-Steps s w again rebuilt done h held back = (
    more _ _ _ (locks s n) (scanned_steps s w again rebuilt done (scan_once w) refl back),
    more _ _ _ (skips s n h held) (none_more _),
  )
