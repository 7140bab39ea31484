-- ===== src/Indexer/Inputs.antt =====
-- What the transfers that a scan reads are like, and the entries of their replay.
use xns.Common.{
  ℕ, ◌+◌, ◌^◌, ◌≤◌, ◌<◌, ◌≡◌, refl, sym, ap, subst, ◌∙◌, none, some, not, List, [], ◌∷◌, Bytes,
  codes, same, Result, ok, err, panic, stuck, check, ok-injective, >>=-eq-ok, All, arith, index,
  length, ◌==◌, ◌&&◌,
}
use mathlib.Core.Option.{some-injective}
use xns.Protocol.{Payload}
use xns.Protocol.Names.{IsName}
use xns.Protocol.Names.RoundTrip.{IsName-decode_name}
use xns.Protocol.Payloads.{decode_payload_lem}
use xns.Extra.{extract_payloads}
use xns.Extra.Provenance.{extract_payloads-WasDecoded, WasDecoded}
use xns.Registry.{Entry, new_registry}
use xns.Registry.Ledger.{Input, apply_inputs, paid_total}
use xns.Registry.Leases.{IsWithin}
use xns.Registry.Refinement.{apply_inputs-IsWithin}
use xns.Registry.Soundness.{HasName, Ascending, last_height, apply_inputs-IsSound}
use xns.Common.Table.{get, get-nil}
use xns.Indexer.{Transfer, Answers}
use xns.Indexer.Ordering.{sort_transfers}
use xns.Indexer.Scan.{Found, choose, extract_from, decode_extra, payload_for_tx}
use xns.Indexer.Order.{IsInside, Rising, sort_transfers-Rising}
use xns.Indexer.Replaying.{reads, scan_inputs}

-- The payload of an input, if it has one, is as a predicate says.
abbrev pub Carries : (Payload → Type 0) → Input → Type 0
Carries P i = (p : Payload) → i.payload ≡ some p → P p

-- What holds of every payload that was decoded holds of what a scan reads.
module _ (P : Payload → Type 0) (good : (p : Payload) → WasDecoded p → P p) where
  -- What was found is so.
  FoundSo : Found → Type 0
  FoundSo found = (p : Payload) → found.0 ≡ some p → P p

  choose-FoundSo :
      (r : Result (List Payload)) (found : Found)
      → ((ps : List Payload) → r ≡ ok ps → All WasDecoded ps)
      → choose r ≡ ok found
      → FoundSo found
  unfolding choose FoundSo
  choose-FoundSo (err e) found h k p is_some = cc
  choose-FoundSo (ok []) found h k p is_some = cc
  choose-FoundSo (ok (q ∷ [])) found h k p is_some = good p (
      subst WasDecoded (some-injective q p (ap (λ (f : Found). f.0) (ok-injective k) ∙ is_some))
        ((h (q ∷ []) refl).0))
  choose-FoundSo (ok (q ∷ q' ∷ qs)) found h k p is_some = cc
  choose-FoundSo panic found h k p is_some = cc
  choose-FoundSo stuck found h k p is_some = cc

  extract_from-FoundSo :
      (r : Result Bytes) (found : Found) → extract_from r ≡ ok found → FoundSo found
  unfolding extract_from
  extract_from-FoundSo (ok extra) found h =
      choose-FoundSo (extract_payloads extra) found (extract_payloads-WasDecoded extra) h
  extract_from-FoundSo (err e) found h = unfold FoundSo in λ p is_some. cc
  extract_from-FoundSo panic found h = cc
  extract_from-FoundSo stuck found h = cc

  payload_for_tx-FoundSo :
      (w : Answers) (t : Transfer) (found : Found) → payload_for_tx w t ≡ ok found → FoundSo found
  unfolding payload_for_tx
  payload_for_tx-FoundSo w t found h =
      let (reply, _, h1) = >>=-eq-ok (w.transactions t.txid) _ h in
      let (_, _, h2) = >>=-eq-ok (check (same reply.status (codes "OK")) _) _ h1 in
      let (_, _, h3) = >>=-eq-ok (check (length reply.txs == 1) _) _ h2 in
      let (tx, _, h4) = >>=-eq-ok (index reply.txs 0) _ h3 in
      let (_, _, h5) =
        >>=-eq-ok (check (same tx.hash t.txid && not tx.in_pool && tx.block_height == t.height) _) _
          h4 in
      extract_from-FoundSo (decode_extra w tx.as_json) found h5

  reads-Carries :
      (w : Answers) (ts : List Transfer) (is : List Input) → reads w ts ≡ ok is → All (Carries P) is
  unfolding reads FoundSo
  reads-Carries w [] is h = subst (λ js. All (Carries P) js) (ok-injective h) tt
  reads-Carries w (t ∷ ts) is h =
      let (found, ef, h1) = >>=-eq-ok (payload_for_tx w t) _ h in
      let (js, er, h2) = >>=-eq-ok (reads w ts) _ h1 in
      subst (λ ks. All (Carries P) ks) (ok-injective h2)
        (payload_for_tx-FoundSo w t found ef, reads-Carries w ts js er)

  pub scan_inputs-Carries :
      (w : Answers) (is : List Input) → scan_inputs w ≡ ok is → All (Carries P) is
  unfolding scan_inputs
  scan_inputs-Carries w is e =
      let (h, _, e1) = >>=-eq-ok w.wallet_height _ e in
      let (transfers, _, e2) = >>=-eq-ok w.transfers _ e1 in
      let ((blocks, ordered), _, e3) = >>=-eq-ok (sort_transfers w h transfers) _ e2 in
      reads-Carries w ordered is e3

IsName-decoded : (p : Payload) → WasDecoded p → IsName p.name
IsName-decoded p (raw, h) =
    let (_, hn, _, _) = decode_payload_lem raw p h in IsName-decode_name _ p.name hn

-- The inputs of ordered transfers.
module _ (w : Answers) where
  reads-Ascending :
      (ts : List Transfer) (is : List Input) (l : ℕ)
      → reads w ts ≡ ok is
      → All (λ (t : Transfer). l ≤ t.height) ts
      → Rising ts
      → Ascending l is
  unfolding reads
  reads-Ascending [] is l h above up = subst (λ js. Ascending l js) (ok-injective h) tt
  reads-Ascending (t ∷ ts) is l h (a, above) (b, up) =
      let (found, ef, h1) = >>=-eq-ok (payload_for_tx w t) _ h in
      let (js, er, h2) = >>=-eq-ok (reads w ts) _ h1 in
      subst (λ ks. Ascending l ks) (ok-injective h2) (a, reads-Ascending ts js t.height er b up)

  reads-below :
      (ts : List Transfer) (is : List Input) (h : ℕ)
      → reads w ts ≡ ok is
      → All (IsInside h) ts
      → All (λ (i : Input). i.height < h) is
  unfolding reads
  reads-below [] is h e below =
      subst (λ js. All (λ (i : Input). i.height < h) js) (ok-injective e) tt
  reads-below (t ∷ ts) is h e ((_, b), below) =
      let (found, ef, h1) = >>=-eq-ok (payload_for_tx w t) _ e in
      let (js, er, h2) = >>=-eq-ok (reads w ts) _ h1 in
      subst (λ ks. All (λ (i : Input). i.height < h) ks) (ok-injective h2)
        (b, reads-below ts js h er below)

Rising-above :
    (h : ℕ) (ts : List Transfer) → All (IsInside h) ts → All (λ (t : Transfer). 0 ≤ t.height) ts
Rising-above h [] a = tt
Rising-above h (t ∷ ts) (b, a) = (omega arith, Rising-above h ts a)

All-at_most :
    (h : ℕ) (is : List Input)
    → All (λ (i : Input). i.height < h) is
    → All (λ (i : Input). i.height ≤ h) is
All-at_most h [] a = tt
All-at_most h (i ∷ is) (b, a) = (omega arith, All-at_most h is a)

last_height-below :
    (h l : ℕ) (is : List Input)
    → l < h
    → All (λ (i : Input). i.height < h) is
    → last_height l is < h
unfolding last_height
last_height-below h l [] b a = b
last_height-below h l (i ∷ is) b (c, a) = last_height-below h i.height is c a

-- The inputs of a scan are in order, below the wallet's height and with allowed names.
pub inputs_lem :
    (w : Answers) (height : ℕ) (is : List Input)
    → w.wallet_height ≡ ok height
    → scan_inputs w ≡ ok is
    → All HasName is × Ascending 0 is × All (λ (i : Input). i.height < height) is
unfolding scan_inputs
inputs_lem w height is eh e =
    let (h, eh', e1) = >>=-eq-ok w.wallet_height _ e in
    let (transfers, _, e2) = >>=-eq-ok w.transfers _ e1 in
    let ((blocks, ordered), es, e3) = >>=-eq-ok (sort_transfers w h transfers) _ e2 in
    let (inside, up) = sort_transfers-Rising w h transfers blocks ordered es in
    let same_height : h ≡ height = ok-injective (sym eh' ∙ eh) in
    (
      scan_inputs-Carries (λ p. IsName p.name) IsName-decoded w is e,
      reads-Ascending w ordered is 0 e3 (Rising-above h ordered inside) up,
      subst (λ n. All (λ (i : Input). i.height < n) is) same_height
          (reads-below w ordered is h e3 inside),
    )

-- An entry of the registry of a replay, updated below the height, with a lease in a uint64.
pub entry_lem :
    (height : ℕ) (is : List Input) (k : Bytes) (e : Entry)
    → All HasName is
    → Ascending 0 is
    → All (λ (i : Input). i.height < height) is
    → height + paid_total is < 2 ^ 64
    → get (apply_inputs new_registry is).names k ≡ some e
    → IsName k × (e.last_update_height < height) × (e.expiration_height < 2 ^ 64)
entry_lem height [] k e named up below room h =
    let at_none : get (apply_inputs new_registry []).names k ≡ none =
      unfold apply_inputs in get-nil {V = Entry} k in
    cc
entry_lem height (i ∷ is) k e named up (b, below) room h =
    let at_most = All-at_most height (i ∷ is) (b, below) in
    let entry = (apply_inputs-IsSound (i ∷ is) height named up at_most room).at k e h in
    let none_yet : IsWithin new_registry height = record {
      at = λ j x found. cc (get-nil {V = Entry} j);
    } in
    let within =
      (apply_inputs-IsWithin (i ∷ is) new_registry height none_yet at_most room).at k e h in
    let last = last_height-below height i.height is b below in
    (entry.named, unfold last_height in omega (arith, entry.past), omega arith)
