-- ===== src/Claim/Cache/Copied.antt =====
-- What copyWalletCache leaves behind.
use xns.Common.{
  ◌≡◌, refl, Bool, true, false, Option, none, some, [], ◌∷◌, Bytes, Error, if◌then◌else◌,
  cache_not_regular,
}
use xns.Session.{Reply, yes, no, Trace, World, to_result, ask}
use xns.Session.Phases
use xns.Session.Phases.{Ends, Moves, Moves-bind, Moves-or_first, Moves-deferred, Moves-check}
use xns.Claim.Cache.{
  Call, Answer, outside, open_source, open_target, stat_regular, copy, sync, close_source,
  close_target, explained, ask_explained, write_target, read_source, copy_wallet_cache,
}

-- The two files: none is open; the source is, and is a regular file; both are, then with all bytes
-- copied, then on the disk; the target is closed again, with its bytes; so is the source.
pub data Phase : Type 0 where
  closed reading regular writing copied synced written complete : Phase

abbrev pub either : {A : Type 0} → Reply A → Phase → Phase → Option Phase
either (yes a) good bad = some good
either (no e) good bad = some bad

abbrev pub next : (c : Call) → Reply (Answer c) → Phase → Option Phase
next (open_source path) (yes u) closed = some reading
next (open_source path) (no e) closed = some closed
next stat_regular (yes true) reading = some regular
next stat_regular (yes false) reading = some reading
next stat_regular (no e) reading = some reading
next (open_target path) (yes u) regular = some writing
next (open_target path) (no e) regular = some reading
next copy (yes u) writing = some copied
next copy (no e) writing = some writing
next sync (yes u) copied = some synced
next sync (no e) copied = some copied
next close_target r synced = either r written reading
next close_target r writing = some reading
next close_target r copied = some reading
next close_source r written = some complete
next close_source r reading = some closed
next _ _ _ = none

module _ (w : World outside) where
  Moves-ask_explained :
      {before failed : Phase} (step : Bytes) (c : Call) (after : Answer c → Phase)
      → ((a : Answer c) → next c (yes a) before ≡ some (after a))
      → ((e : Error) → next c (no e) before ≡ some failed)
      → Moves next closed w before after failed (ask_explained step c)
  unfolding ask_explained ask
  Moves-ask_explained {before = before} {failed = failed} step c after on_yes on_no = record {
    at = λ past h. replied past h (w past c);
  }
    where
      replied :
          (past : Trace outside)
          → Phases.phase next closed past ≡ some before
          → (r : Reply (Answer c))
          → Ends next closed after failed
              (explained step (to_result r), record { call = c; reply = r } ∷ past)
      replied past h (yes a) = rw h (on_yes a)
      replied past h (no e) = rw h (on_no e)

  Moves-write_target : Moves next closed w writing (λ _. written) reading write_target
  unfolding write_target
  Moves-write_target =
      Moves-bind
        (Moves-or_first close_target (λ r. refl)
          (Moves-ask_explained _ copy (λ _. copied) (λ a. refl) (λ e. refl)))
        (λ _.
          Moves-bind
            (Moves-or_first close_target (λ r. refl)
              (Moves-ask_explained _ sync (λ _. synced) (λ a. refl) (λ e. refl)))
            (λ _. Moves-ask_explained _ close_target (λ _. written) (λ a. refl) (λ e. refl)))

  stat_found :
      (b : Bool) → next stat_regular (yes b) reading ≡ some (if b then regular else reading)
  stat_found true = refl
  stat_found false = refl

  Moves-read_source :
      (destination : Bytes)
      → Moves next closed w reading (λ _. written) reading (read_source destination)
  unfolding read_source
  Moves-read_source destination =
      Moves-bind
        (Moves-ask_explained _ stat_regular (λ b. if b then regular else reading) stat_found
          (λ e. refl))
        (λ b. Moves-bind (Moves-check b cache_not_regular) (λ _.
          Moves-bind
            (Moves-ask_explained _ (open_target destination) (λ _. writing) (λ a. refl) (λ e. refl))
            (λ _. Moves-write_target)))

  -- Whatever the file system replies, copyWalletCache opens the target only for a regular source,
  -- closes each file that it opened, once, and does not panic. Where it succeeds, the source's
  -- bytes were copied, brought to the disk and the target closed, in that order, without an error.
  pub copy_wallet_cache_lem :
      (source destination : Bytes)
      → Ends next closed (λ _. complete) closed (copy_wallet_cache source destination w [])
  unfolding copy_wallet_cache
  copy_wallet_cache_lem source destination =
      (Moves-bind
          (Moves-ask_explained _ (open_source source) (λ _. reading) (λ a. refl) (λ e. refl))
          (λ _.
            Moves-deferred close_source (Moves-read_source destination) (λ r. refl) (λ r. refl))).at
        [] refl
