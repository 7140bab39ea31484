-- ===== src/Indexer/Replaying.antt =====
-- What a scan leaves is the replay of the transfers that it read, and of those that are deep enough.
use xns.Common.{
  ℕ, ◌-◌, ◌≡◌, refl, sym, ap, subst, ◌∙◌, List, [], ◌∷◌, ◌++◌, Bytes, Result, ok, check,
  ok-injective, ◌>>=◌, ◌>>◌, >>=-eq-ok, Bool-cases, inl, inr, same, leb, ltb, ◌==◌, ◌||◌, not,
  chain_changed, if◌then◌else◌,
}
use mathlib.Core.List.{append_assoc, append-nil}
use xns.Registry.{Event, Registry, new_registry, apply}
use xns.Registry.Ledger.{Input, apply_input, apply_inputs}
use xns.Indexer.{Transfer, Answers, State}
use xns.Indexer.Ordering.{Blocks, sort_transfers}
use xns.Indexer.Scan.{
  Found, payload_for_tx, Replay, start, replay_step, replay_loop, durable_height, hash_at,
  scan_once,
}

abbrev pub input_of : Transfer → Found → Input
input_of t found = record {
  txid = t.txid;
  height = t.height;
  amount = t.amount;
  payload = found.0;
  invalid = found.1;
}

-- The transfers with what was found in them.
unfoldable pub reads : Answers → List Transfer → Result (List Input)
reads w [] = ok []
reads w (t ∷ ts) = do found ← payload_for_tx w t; is ← reads w ts; ok (input_of t found ∷ is)

-- The inputs of a scan, in the order in which they take effect.
unfoldable pub scan_inputs : Answers → Result (List Input)
scan_inputs w = do
  height ← w.wallet_height
  transfers ← w.transfers
  (blocks, ordered) ← sort_transfers w height transfers
  reads w ordered

-- The events of a replay, on its own.
unfoldable pub events_of : Registry → List Input → List Event
events_of r [] = []
events_of r (i ∷ is) =
    (apply r i.txid i.height i.amount i.payload i.invalid).1 ∷ events_of (apply_input r i) is

-- The inputs up to a height.
unfoldable pub up_to : ℕ → List Input → List Input
up_to h [] = []
up_to h (i ∷ is) = if leb i.height h then i ∷ up_to h is else up_to h is

-- Two replays, side by side.
abbrev replayed : ℕ → List Input → Replay → Replay
replayed h is r = record {
  visible = apply_inputs r.visible is;
  durable = apply_inputs r.durable (up_to h is);
  visible_events = r.visible_events ++ events_of r.visible is;
  durable_events = r.durable_events ++ events_of r.durable (up_to h is);
}

replayed_step :
    (h : ℕ) (t : Transfer) (found : Found) (is : List Input) (r : Replay)
    → replayed h is (replay_step h t found r) ≡ replayed h (input_of t found ∷ is) r
unfolding replay_step up_to apply_inputs events_of
replayed_step h t found is r = elim (Bool-cases (leb t.height h)) [
  | inl b ↦ rw (b, append_assoc, append_assoc) refl
  | inr b ↦ rw (b, append_assoc) refl
]

replayed_none : (h : ℕ) (r : Replay) → replayed h [] r ≡ r
unfolding up_to apply_inputs events_of
replayed_none h r = simp append-nil

replay_loop_lem :
    (w : Answers) (h : ℕ) (ts : List Transfer) (r r' : Replay)
    → replay_loop w h ts r ≡ ok r'
    → (is : List Input) × (reads w ts ≡ ok is) × (r' ≡ replayed h is r)
unfolding replay_loop reads
replay_loop_lem w h [] r r' e = ([], refl, sym (ok-injective e) ∙ sym (replayed_none h r))
replay_loop_lem w h (t ∷ ts) r r' e =
    let (found, ef, e') = >>=-eq-ok (payload_for_tx w t) _ e in
    let (is, er, ee) = replay_loop_lem w h ts (replay_step h t found r) r' e' in
    (input_of t found ∷ is, rw (ef, er), ee ∙ replayed_step h t found is r)

go_on :
    {A B : Type 0} (m : Result A) (f : A → Result B) (a : A) {b : Result B}
    → m ≡ ok a
    → f a ≡ b
    → (m >>= f) ≡ b
go_on m f a {b} e k = subst (λ n. (n >>= f) ≡ b) (sym e) k

scan_inputs-ok :
    (w : Answers) (height : ℕ) (transfers ordered : List Transfer) (blocks : Blocks)
    (is : List Input)
    → w.wallet_height ≡ ok height
    → w.transfers ≡ ok transfers
    → sort_transfers w height transfers ≡ ok (blocks, ordered)
    → reads w ordered ≡ ok is
    → scan_inputs w ≡ ok is
unfolding scan_inputs
scan_inputs-ok w height transfers ordered blocks is eh et es er =
    go_on w.wallet_height _ height eh (
      go_on w.transfers _ transfers et
        (go_on (sort_transfers w height transfers) _ (blocks, ordered) es er))

-- A scan's result, from the registry and the events of a replay.
abbrev pub state_of : ℕ → List Input → State
state_of height is = record {
  height = height;
  events = events_of new_registry is;
  names = (apply_inputs new_registry is).names;
}

-- The part of a scan behind the sorting.
abbrev ending : Answers → ℕ → Bytes → Blocks → List Transfer → Result (State × State × Bytes)
ending w height tip_hash blocks ordered = do
  let durable = durable_height height 10
  r ← replay_loop w durable ordered start
  durable_hash ← hash_at w blocks durable
  end_hash ← w.end_hash (height - 1)
  check (same end_hash tip_hash) chain_changed
  ok (
    record { height = height; events = r.visible_events; names = r.visible.names },
    record { height = durable; events = r.durable_events; names = r.durable.names },
    durable_hash,
  )

-- The two states are those of the replay.
abbrev pub AreReplays : ℕ → List Input → State → State → Type 0
AreReplays height is visible durable =
    (visible ≡ state_of height is)
    × (durable ≡ state_of (durable_height height 10) (up_to (durable_height height 10) is))

ending-AreReplays :
    (w : Answers) (height : ℕ) (tip hash : Bytes) (blocks : Blocks) (ordered : List Transfer)
    (visible durable : State)
    → ending w height tip blocks ordered ≡ ok (visible, durable, hash)
    → (is : List Input) × (reads w ordered ≡ ok is) × AreReplays height is visible durable
ending-AreReplays w height tip hash blocks ordered visible durable e =
    let limit = durable_height height 10 in
    let (r, er, e1) = >>=-eq-ok (replay_loop w limit ordered start) _ e in
    let (durable_hash, _, e2) = >>=-eq-ok (hash_at w blocks limit) _ e1 in
    let (end_hash, _, e3) = >>=-eq-ok (w.end_hash (height - 1)) _ e2 in
    let (_, _, e4) = >>=-eq-ok (check (same end_hash tip) chain_changed) _ e3 in
    let result = ok-injective e4 in
    let (is, reading, ee) = replay_loop_lem w limit ordered start r er in
    (
      is,
      reading,
      (
        sym (ap (λ (q : State × State × Bytes). q.0) result)
            ∙ ap
                (λ (q : Replay). record {
                  height = height;
                  events = q.visible_events;
                  names = q.visible.names;
                })
                ee,
        sym (ap (λ (q : State × State × Bytes). q.1) result)
            ∙ ap
                (λ (q : Replay). record {
                  height = limit;
                  events = q.durable_events;
                  names = q.durable.names;
                })
                ee,
      ),
    )

-- A scan that succeeds shows the replay of all transfers to the protocol address, at the wallet's
-- height, and stores the replay of those alone that lie at or below the durable height, ten blocks
-- back, in the same order.
pub scan_once-state_of :
    (w : Answers) (visible durable : State) (hash : Bytes)
    → scan_once w ≡ ok (visible, durable, hash)
    → (height : ℕ) × (is : List Input) × (w.wallet_height ≡ ok height)
      × (scan_inputs w ≡ ok is)
      × AreReplays height is visible durable
unfolding scan_once
scan_once-state_of w visible durable hash e =
    let (_, _, e1) = >>=-eq-ok w.refresh _ e in
    let (height, eh, e2) = >>=-eq-ok w.wallet_height _ e1 in
    let (daemon, _, e3) = >>=-eq-ok w.daemon_height _ e2 in
    let (_, _, e4) = >>=-eq-ok (check (not (height == 0 || ltb daemon height)) _) _ e3 in
    let (tip, _, e5) = >>=-eq-ok (w.tip_hash (height - 1)) _ e4 in
    let (transfers, et, e6) = >>=-eq-ok w.transfers _ e5 in
    let ((blocks, ordered), es, e7) = >>=-eq-ok (sort_transfers w height transfers) _ e6 in
    let (is, reading, replays) =
      ending-AreReplays w height tip hash blocks ordered visible durable e7 in
    (height, is, eh, scan_inputs-ok w height transfers ordered blocks is eh et es reading, replays)
