-- ===== src/RpcProcess/Lifecycle.antt =====
-- Starting and stopping a wallet's process follow its phases.
use xns.Common.{
  [], ℕ, zero, suc, ◌≡◌, refl, Bool, true, false, none, some, List, Bytes, if◌then◌else◌,
}
use xns.Session.{Reply, yes, no, World}
use xns.RpcProcess.{
  outside, open_log, start, close_log, poll_done, wait_done, await_done, interrupt, kill,
  start_process, is_done, poll, wait, interrupt_unless, kill_unless, close_if, stop_once, stop,
}
use xns.RpcProcess.Phases.{
  Phase, next, idle, running, interrupted, late, ended, done_or, phase, StaysDone, fresh, finished,
  stop_times, start_and_stop,
}
use xns.Session.Phases.{
  Moves, Moves-bind, Moves-ok, Moves-tell, Moves-ask, Moves-or_first, Gives, Gives-ok, Gives-bind,
  Moves-given, phase_at_end,
}

module _ (w : World outside) where
  Moves-start_process :
      (log_path : Bytes) (args : List Bytes)
      → Moves next idle w idle (λ p. running) idle (start_process log_path args)
  unfolding start_process
  Moves-start_process log_path args =
      Moves-bind (Moves-ask (open_log log_path) (λ a. refl) (λ e. refl)) (λ _.
        Moves-bind
          (Moves-or_first close_log (λ r. refl) (Moves-ask (start args) (λ a. refl) (λ e. refl)))
          (λ _. Moves-ok fresh))

  Gives-start_process :
      (log_path : Bytes) (args : List Bytes) → Gives w fresh (start_process log_path args)
  unfolding start_process
  Gives-start_process log_path args =
      Gives-bind w _ _ (λ _. Gives-bind w _ _ (λ _. Gives-ok w fresh))

  abbrev after_poll : Bool → Phase
  after_poll b = if b then ended else running

  abbrev after_interrupt : Bool → Phase
  after_interrupt b = if b then ended else interrupted

  abbrev after_wait : Bool → Phase
  after_wait b = if b then ended else late

  found_done :
      (r : Reply Bool) (q : Phase) → done_or r (some q) ≡ some (if is_done r then ended else q)
  found_done (yes true) q = refl
  found_done (yes false) q = refl
  found_done (no e) q = refl

  Moves-poll : Moves next idle w running after_poll idle poll
  unfolding poll
  Moves-poll = record { at = λ past h. rw h (found_done (w past poll_done) running) }

  Moves-interrupt_unless :
      (gone : Bool)
      → Moves next idle w (after_poll gone) (λ _. after_interrupt gone) idle (interrupt_unless gone)
  unfolding interrupt_unless
  Moves-interrupt_unless true = Moves-ok tt
  Moves-interrupt_unless false = Moves-tell interrupt (λ r. refl)

  found_again : (r : Reply Bool) → is_done r ≡ true → done_or r none ≡ some ended
  found_again (yes true) h = refl
  found_again (yes false) h = cc
  found_again (no e) h = cc

  module _ (stays : StaysDone w) where
    Moves-wait : (gone : Bool) → Moves next idle w (after_interrupt gone) after_wait idle wait
    unfolding wait
    Moves-wait true = record {
      at = λ past h.
          let again = stays past h in rw (h, again) (found_again (w past wait_done) again);
    }
    Moves-wait false = record { at = λ past h. rw h (found_done (w past wait_done) late) }

    Moves-kill_unless :
        (in_time : Bool)
        → Moves next idle w (after_wait in_time) (λ _. ended) idle (kill_unless in_time)
    unfolding kill_unless
    Moves-kill_unless true = Moves-ok tt
    Moves-kill_unless false =
        Moves-bind (Moves-tell kill (λ r. refl)) (λ _. Moves-tell await_done (λ r. refl))

    Moves-stop_once : Moves next idle w running (λ _. idle) idle (stop_once fresh)
    unfolding stop_once close_if
    Moves-stop_once = Moves-bind Moves-poll (λ gone. Moves-bind (Moves-interrupt_unless gone) (λ _.
        Moves-bind (Moves-wait gone) (λ in_time.
          Moves-bind (Moves-kill_unless in_time) (λ _. Moves-tell close_log (λ r. refl)))))

    Moves-stop : Moves next idle w running (λ _. idle) idle (stop (some fresh))
    unfolding stop
    Moves-stop = Moves-bind Moves-stop_once (λ _. Moves-ok (some finished))

    Gives-stop : Gives w (some finished) (stop (some fresh))
    unfolding stop
    Gives-stop = Gives-bind w _ _ (λ _. Gives-ok w (some finished))

    -- Stopped again, nothing is done.
    Moves-stop_times :
        (n : ℕ) → Moves next idle w idle (λ _. idle) idle (stop_times n (some finished))
    unfolding stop
    Moves-stop_times zero = Moves-ok (some finished)
    Moves-stop_times (suc n) =
        Moves-given (some finished) _ (Moves-ok (some finished)) (Gives-ok w (some finished))
          (Moves-stop_times n)

    Moves-start_and_stop :
        (n : ℕ) (log_path : Bytes) (args : List Bytes)
        → Moves next idle w idle (λ _. idle) idle (start_and_stop (suc n) log_path args)
    Moves-start_and_stop n log_path args =
        Moves-given fresh _ (Moves-start_process log_path args) (Gives-start_process log_path args)
          (Moves-given (some finished) _ Moves-stop Gives-stop (Moves-stop_times n))

-- A wallet's process that is started and then stopped, once or more often, runs through its phases
-- and no others, whatever the system replies and also where the log or the process cannot be
-- opened, as long as a process found ended stays so: it is interrupted unless it has ended, is only
-- killed if it was interrupted and is then not found ended by the wait of ten seconds, its log is
-- closed once, behind its end, and at the end there is neither process nor log.
pub phase-start_and_stop :
    (w : World outside)
    → StaysDone w
    → (n : ℕ) (log_path : Bytes) (args : List Bytes)
    → phase (start_and_stop (suc n) log_path args w []).1 ≡ some idle
phase-start_and_stop w stays n log_path args =
    phase_at_end next idle w (start_and_stop (suc n) log_path args w []) idle
      ((Moves-start_and_stop w stays n log_path args).at [] refl)
