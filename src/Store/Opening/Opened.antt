-- ===== src/Store/Opening/Opened.antt =====
-- What Open leaves behind.
use xns.Common.{refl, Option, none, some, [], Bytes}
use xns.Session.{Reply, yes, no, World}
use xns.Session.Phases.{Ends, Moves-bind, Moves-ask, Moves-or_first}
use xns.Store.Opening.{Call, Answer, outside, make_parent, sql_open, exec, close, init, open_db}

-- No handle; a handle; one with the tables.
pub data Handle : Type 0 where
  closed bare ready : Handle

abbrev pub next : (c : Call) → Reply (Answer c) → Handle → Option Handle
next (make_parent path) r closed = some closed
next (sql_open name) (yes u) closed = some bare
next (sql_open name) (no e) closed = some closed
next (exec statements) (yes u) bare = some ready
next (exec statements) (no e) bare = some bare
next close r bare = some closed
next close r ready = some closed
next _ _ _ = none

module _ (w : World outside) where
  -- Open gives a handle to a database with the tables, or an error and leaves no handle open.
  pub open_db-Ends : (path : Bytes) → Ends next closed (λ _. ready) closed (open_db path w [])
  unfolding open_db init
  open_db-Ends path =
      (Moves-bind (Moves-ask (make_parent path) (λ a. refl) (λ e. refl)) (λ _.
          Moves-bind (Moves-ask (sql_open _) (λ a. refl) (λ e. refl)) (λ _.
            Moves-or_first close (λ r. refl) (Moves-ask (exec _) (λ a. refl) (λ e. refl))))).at
        [] refl
