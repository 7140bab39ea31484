-- ===== src/Indexer/Answering.antt =====
-- What a lookup answers from the result of a scan.
use xns.Common.{
  ℕ, ◌+◌, ◌-◌, ◌%◌, ◌^◌, ◌<◌, ◌≡◌, refl, sym, ap, subst, ◌∙◌, some, true, List, Bytes, ok,
  ok-injective, Bool-cases, inl, inr, leb, if◌then◌else◌, arith,
}
use xns.Protocol.Names.{IsName}
use xns.Registry.{Entry}
use xns.Registry.Ledger.{Input, paid_total}
use xns.Common.Table.{get}
use xns.Indexer.Server.{respond, not_found, LookupResponse}
use xns.Indexer.{Answers, State}
use xns.Indexer.Scan.{scan_once}
use xns.Indexer.Replaying.{scan_inputs, state_of, scan_once-state_of}
use xns.Indexer.Inputs.{entry_lem, inputs_lem}

-- The answer in unbounded numbers.
abbrev pub exact : ℕ → Bytes → Entry → LookupResponse
exact height name e = if leb e.expiration_height height then not_found name else record {
  found = true;
  name = name;
  owner_key = e.owner_key;
  expiration_height = e.expiration_height;
  remaining_blocks = e.expiration_height - height;
  finalized = leb (e.last_update_height + 10) height;
  source_txids = e.source_txids;
}

respond-exact :
    (s : State) (name : Bytes) (e : Entry)
    → get s.names name ≡ some e
    → s.height < 2 ^ 64
    → e.last_update_height < s.height
    → e.expiration_height < 2 ^ 64
    → respond s name ≡ exact s.height name e
unfolding respond
respond-exact s name e h small update lease = elim (Bool-cases (leb e.expiration_height s.height)) [
  | inl over ↦ rw (h, respond, over) refl
  | inr runs ↦
      let left : (e.expiration_height + 2 ^ 64 - s.height) % 2 ^ 64
          ≡ e.expiration_height - s.height =
        ground arith in
      let deep : leb 10 ((s.height + 2 ^ 64 - e.last_update_height) % 2 ^ 64)
          ≡ leb (e.last_update_height + 10) s.height =
        ground arith in
      rw (h, respond, runs, left, deep) refl
]

-- What a lookup answers for a name in the state of a scan that succeeded is right in unbounded
-- numbers, as long as the scan's height and all that was paid for stay below 2 ^ 64: the name is
-- found if its lease runs past the height, with the blocks that are left, and as finalized if its last
-- update lies ten blocks below the height or deeper. The name of every entry is allowed.
pub respond-scan_once :
    (w : Answers) (visible durable : State) (hash name : Bytes) (is : List Input) (e : Entry)
    → scan_once w ≡ ok (visible, durable, hash)
    → scan_inputs w ≡ ok is
    → visible.height + paid_total is < 2 ^ 64
    → get visible.names name ≡ some e
    → IsName name × (respond visible name ≡ exact visible.height name e)
respond-scan_once w visible durable hash name is e scanned inputs room held =
    let (height, js, eh, ej, (shown, _)) = scan_once-state_of w visible durable hash scanned in
    let same_inputs : js ≡ is = ok-injective (sym ej ∙ inputs) in
    let shown_is : visible ≡ state_of height is =
      subst (λ ks. visible ≡ state_of height ks) same_inputs shown in
    let at_height : visible.height ≡ height = ap (λ (s : State). s.height) shown_is in
    let (named, up, below) = inputs_lem w height is eh inputs in
    let (allowed, update, lease) =
      entry_lem height is name e named up below (omega (arith, room, at_height))
        (subst (λ (s : State). get s.names name ≡ some e) shown_is held) in
    (
      allowed,
      respond-exact visible name e held (omega (arith, room)) (omega (arith, at_height, update))
          lease,
    )
