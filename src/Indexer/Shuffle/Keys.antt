-- ===== src/Indexer/Shuffle/Keys.antt =====
-- The keys of transfers do not depend on the order of their list.
use xns.Common.{
  ℕ, ==_iff, check→true, ◌≡◌, ◌⊎◌, inl, inr, refl, sym, ap, ◌∙◌, subst, none, some, Bool-cases,
  Option-cases, true, false, List, [], ◌∷◌, Bytes, same_self, ok, check, leb, ◌==◌, ◌||◌, not, All,
  >>=-eq-ok, ok-injective,
}
use mathlib.Core.Option.{some-injective}
use xns.Hex
use xns.Common.Table.{Table, get, put, get-put}
use xns.Indexer.{Transfer, Block, Answers}
use xns.Indexer.Ordering.{
  Blocks, find_block, contains, fetch_block, check_loop, add_key, same_block_key, key_of,
}
use xns.Indexer.Shuffle.Comparison.{AreDistinct, AllDistinct, AreDistinct-sym, Agree}

-- The blocks at hand are those that the daemon gives.
pub record IsConsistent (w : Answers) (blocks : Blocks) : Type 0 where
  pub at : (h : ℕ) (b : Block) → find_block blocks h ≡ some b → w.block h ≡ ok b

-- A transfer that `sortTransfers` lets through, with the key that it gets.
pub record HasKey (w : Answers) (h : ℕ) (t : Transfer) (key : Bytes) : Type 0 where
  pub block : Block
  pub raw : Bytes
  pub fetched : w.block t.height ≡ ok block
  pub inside : not (t.height == 0 || leb h t.height) ≡ true
  pub listed : contains block.tx_hashes t.txid ≡ true
  pub decoded : Hex.decode block.hash ≡ ok raw
  pub keyed : key ≡ same_block_key w.keccak raw t.txid

pub fetch_block-IsConsistent :
    (w : Answers) (blocks blocks' : Blocks) (h : ℕ) (b : Block)
    → IsConsistent w blocks
    → fetch_block w blocks h ≡ ok (blocks', b)
    → (w.block h ≡ ok b) × IsConsistent w blocks'
unfolding fetch_block find_block
fetch_block-IsConsistent w blocks blocks' h b c e = elim (Option-cases (find_block blocks h)) [
  | inr (old, stands) ↦
      let known = ok-injective (rw (stands, fetch_block) at e) in
      (
        c.at h old stands ∙ ap (λ (q : Blocks × Block). ok q.1) known,
        subst (IsConsistent w) (ap (λ (q : Blocks × Block). q.0) known) c,
      )
  | inl absent ↦
      let (new, got, rest) = >>=-eq-ok (w.block h) _ (rw (absent, fetch_block) at e) in
      let known = ok-injective rest in
      (
        got ∙ ap (λ (q : Blocks × Block). ok q.1) known,
        subst (IsConsistent w) (ap (λ (q : Blocks × Block). q.0) known)
            (record { at = λ k x stands. newer k x new got (Bool-cases (h == k)) stands }),
      )
]
  where
    newer :
        (k : ℕ) (x new : Block)
        → w.block h ≡ ok new
        → ((h == k) ≡ true) ⊎ ((h == k) ≡ false)
        → find_block ((h, new) ∷ blocks) k ≡ some x
        → w.block k ≡ ok x
    newer k x new got (inl e) stands =
        subst (λ n. w.block n ≡ ok x) ((==_iff h k).0 e)
          (got ∙ ap ok (some-injective new x (rw e at stands)))
    newer k x new got (inr e) stands = c.at k x (rw e at stands)

-- The transfers have the keys of a table.
abbrev pub AreKeyed : Answers → ℕ → Table Bytes → List Transfer → Type 0
AreKeyed w h keys ts =
    All (λ (t : Transfer). (key : Bytes) × HasKey w h t key × (get keys t.txid ≡ some key)) ts

abbrev pub AreNew : Table Bytes → List Transfer → Type 0
AreNew keys ts = All (λ (t : Transfer). get keys t.txid ≡ none) ts

pub add_key-new :
    (keys : Table Bytes) (txid key : Bytes)
    → get keys txid ≡ none
    → add_key keys txid key ≡ put keys txid key
unfolding add_key
add_key-new keys txid key absent = rw (absent, add_key) refl

pub AreNew-put :
    (keys : Table Bytes) (t : Transfer) (key : Bytes) (ts : List Transfer)
    → All (AreDistinct t) ts
    → AreNew keys ts
    → AreNew (put keys t.txid key) ts
AreNew-put keys t key [] d h = tt
AreNew-put keys t key (u ∷ us) (p, d) (q, h) = (rw (get-put, p) q, AreNew-put keys t key us d h)

pub AreNew-nil : (ts : List Transfer) → AreNew [] ts
unfolding get
AreNew-nil [] = tt
AreNew-nil (t ∷ ts) = (refl, AreNew-nil ts)

-- After the loop each transfer has its key, and a transaction of no transfer has what it had.
pub check_loop-AreKeyed :
    (w : Answers) (h : ℕ) (ts : List Transfer) (blocks : Blocks) (keys : Table Bytes)
    (r : Blocks × Table Bytes)
    → IsConsistent w blocks
    → AllDistinct ts
    → AreNew keys ts
    → check_loop w h ts blocks keys ≡ ok r
    → AreKeyed w h r.1 ts
      × ((t : Transfer) → All (AreDistinct t) ts → get r.1 t.txid ≡ get keys t.txid)
unfolding check_loop
check_loop-AreKeyed w h [] blocks keys r c d new e =
    (tt, λ t others. ap (λ (q : Blocks × Table Bytes). get q.1 t.txid) (sym (ok-injective e)))
check_loop-AreKeyed w h (t ∷ ts) blocks keys r c (d, ds) (n, new) e =
    let (_, inside, e1) = >>=-eq-ok (check (not (t.height == 0 || leb h t.height)) _) _ e in
    let ((blocks', block), fetched, e2) = >>=-eq-ok (fetch_block w blocks t.height) _ e1 in
    let (_, listed, e3) = >>=-eq-ok (check (contains block.tx_hashes t.txid) _) _ e2 in
    let (raw, decoded, e4) = >>=-eq-ok (Hex.decode block.hash) _ e3 in
    let (got, c') = fetch_block-IsConsistent w blocks blocks' t.height block c fetched in
    let key = same_block_key w.keccak raw t.txid in
    let e5 : check_loop w h ts blocks' (put keys t.txid key) ≡ ok r =
      subst (λ k. check_loop w h ts blocks' k ≡ ok r) (add_key-new keys t.txid key n) e4 in
    let (keyed, others) =
      check_loop-AreKeyed w h ts blocks' (put keys t.txid key) r c' ds
        (AreNew-put keys t key ts d new) e5 in
    let passes : HasKey w h t key = record {
      block = block;
      raw = raw;
      fetched = got;
      inside = check→true (not (t.height == 0 || leb h t.height)) _ inside;
      listed = check→true (contains block.tx_hashes t.txid) _ listed;
      decoded = decoded;
      keyed = refl;
    } in
    (
      ((key, passes, others t d ∙ rw (get-put, same_self t.txid) refl), keyed),
      λ u (apart, rest). others u rest ∙ rw (get-put, AreDistinct-sym u t apart) refl,
    )

pub fetch_block-ok :
    (w : Answers) (blocks : Blocks) (h : ℕ) (b : Block)
    → IsConsistent w blocks
    → w.block h ≡ ok b
    → (blocks' : Blocks) × (fetch_block w blocks h ≡ ok (blocks', b))
unfolding fetch_block
fetch_block-ok w blocks h b c got = elim (Option-cases (find_block blocks h)) [
  | inr (old, stands) ↦ (
    blocks,
    rw (stands, fetch_block)
        (ap (λ x. ok (blocks, x)) (ok-injective (sym (c.at h old stands) ∙ got))),
  )
  | inl absent ↦ ((h, b) ∷ blocks, rw (absent, fetch_block, got) refl)
]

abbrev pub Passing : Answers → ℕ → List Transfer → Type 0
Passing w h ts = All (λ (t : Transfer). (key : Bytes) × HasKey w h t key) ts

pub check_loop-ok :
    (w : Answers) (h : ℕ) (ts : List Transfer) (blocks : Blocks) (keys : Table Bytes)
    → IsConsistent w blocks
    → Passing w h ts
    → (r : Blocks × Table Bytes) × (check_loop w h ts blocks keys ≡ ok r)
unfolding check_loop
check_loop-ok w h [] blocks keys c p = ((blocks, keys), refl)
check_loop-ok w h (t ∷ ts) blocks keys c ((key, passes), p) =
    let (blocks', fetched) = fetch_block-ok w blocks t.height passes.block c passes.fetched in
    let (_, c') = fetch_block-IsConsistent w blocks blocks' t.height passes.block c fetched in
    let (r, e) =
      check_loop-ok w h ts blocks' (add_key keys t.txid (same_block_key w.keccak passes.raw t.txid))
        c' p in
    (r, rw (passes.inside, fetched, passes.listed, passes.decoded, e) refl)

pub HasKey-unique :
    (w : Answers) (h : ℕ) (t : Transfer) (k l : Bytes) → HasKey w h t k → HasKey w h t l → k ≡ l
HasKey-unique w h t k l p q =
    let block : p.block ≡ q.block = ok-injective (sym p.fetched ∙ q.fetched) in
    let raw : p.raw ≡ q.raw =
      ok-injective (sym p.decoded ∙ (ap (λ (b : Block). Hex.decode b.hash) block ∙ q.decoded)) in
    p.keyed ∙ (ap (λ x. same_block_key w.keccak x t.txid) raw ∙ sym q.keyed)

pub key_of-some :
    (keys : Table Bytes) (txid key : Bytes) → get keys txid ≡ some key → key_of keys txid ≡ key
unfolding key_of
key_of-some keys txid key e = rw (e, key_of) refl

pub AreKeyed-Agree :
    (w : Answers) (h : ℕ) (ks ls : Table Bytes) (ts : List Transfer)
    → AreKeyed w h ks ts
    → AreKeyed w h ls ts
    → Agree ks ls ts
AreKeyed-Agree w h ks ls [] p q = tt
AreKeyed-Agree w h ks ls (t ∷ ts) ((k, a, e), p) ((l, b, f), q) = (
  key_of-some ks t.txid k e ∙ HasKey-unique w h t k l a b ∙ sym (key_of-some ls t.txid l f),
  AreKeyed-Agree w h ks ls ts p q,
)

pub AreKeyed-Passing :
    (w : Answers) (h : ℕ) (ks : Table Bytes) (ts : List Transfer)
    → AreKeyed w h ks ts
    → Passing w h ts
AreKeyed-Passing w h ks [] p = tt
AreKeyed-Passing w h ks (t ∷ ts) ((k, a, e), p) = ((k, a), AreKeyed-Passing w h ks ts p)
