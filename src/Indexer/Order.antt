-- ===== src/Indexer/Order.antt =====
-- What `sortTransfers` leaves: transfers inside the chain, the lower height first.
use xns.Common.{
  ℕ, ◌≤◌, ◌<◌, ◌≡◌, List, [], ◌∷◌, Bytes, ok, Error, true, false, ap, subst, check, ok-injective,
  >>=-eq-ok, check→true, Bool-cases, inl, inr, leb, ◌==◌, ◌||◌, not, All, arith,
}
use xns.Hex
use xns.Common.Table.{Table}
use xns.Indexer.{Transfer, Answers}
use xns.Indexer.Ordering.{
  Blocks, contains, fetch_block, check_loop, add_key, same_block_key, before, insert, sort,
  sort_transfers,
}

-- A height between the genesis block and the tip.
abbrev pub IsInside : ℕ → Transfer → Type 0
IsInside h t = (1 ≤ t.height) × (t.height < h)

abbrev AllAbove : ℕ → List Transfer → Type 0
AllAbove h ts = All (λ (t : Transfer). h ≤ t.height) ts

-- The heights never go down.
abbrev pub Rising : List Transfer → Type 0
Rising [] = Unit {0}
Rising (t ∷ ts) = AllAbove t.height ts × Rising ts

inside_check :
    (w h : ℕ) (e : Error) {u : Unit {0}}
    → check (not (h == 0 || leb w h)) e ≡ ok u
    → (1 ≤ h) × (h < w)
inside_check w h e c = let b = check→true (not (h == 0 || leb w h)) e c in ground arith

check_loop-IsInside :
    (w : Answers) (h : ℕ) (ts : List Transfer) (blocks : Blocks) (keys : Table Bytes)
    (r : Blocks × Table Bytes)
    → check_loop w h ts blocks keys ≡ ok r
    → All (IsInside h) ts
unfolding check_loop
check_loop-IsInside w h [] blocks keys r e = tt
check_loop-IsInside w h (t ∷ ts) blocks keys r e =
    let (_, inside, e1) = >>=-eq-ok (check (not (t.height == 0 || leb h t.height)) _) _ e in
    let ((blocks', block), _, e2) = >>=-eq-ok (fetch_block w blocks t.height) _ e1 in
    let (_, _, e3) = >>=-eq-ok (check (contains block.tx_hashes t.txid) _) _ e2 in
    let (raw, _, e4) = >>=-eq-ok (Hex.decode block.hash) _ e3 in
    (
      inside_check h t.height _ inside,
      check_loop-IsInside w h ts blocks' (add_key keys t.txid (same_block_key w.keccak raw t.txid))
          r e4,
    )

module _ (P : Transfer → Type 0) (keys : Table Bytes) where
  All-insert : (t : Transfer) (us : List Transfer) → P t → All P us → All P (insert keys t us)
  unfolding insert
  All-insert t [] p h = (p, tt)
  All-insert t (u ∷ us) p (q, h) = elim (Bool-cases (before keys u t)) [
    | inl b ↦ rw b (q, All-insert t us p h)
    | inr b ↦ rw b (p, (q, h))
  ]

  All-sort : (ts : List Transfer) → All P ts → All P (sort keys ts)
  unfolding sort
  All-sort [] h = tt
  All-sort (t ∷ ts) (p, h) = All-insert t (sort keys ts) p (All-sort ts h)

before-height : (keys : Table Bytes) (t u : Transfer) → before keys t u ≡ true → t.height ≤ u.height
unfolding before
before-height keys t u h = ground arith

not_before-height :
    (keys : Table Bytes) (t u : Transfer) → before keys u t ≡ false → t.height ≤ u.height
unfolding before
not_before-height keys t u h = ground arith

AllAbove-lower : (m n : ℕ) (ts : List Transfer) → m ≤ n → AllAbove n ts → AllAbove m ts
AllAbove-lower m n [] le h = tt
AllAbove-lower m n (t ∷ ts) le (x, h) = (omega arith, AllAbove-lower m n ts le h)

insert-Rising :
    (keys : Table Bytes) (t : Transfer) (us : List Transfer) → Rising us → Rising (insert keys t us)
unfolding insert
insert-Rising keys t [] h = (tt, tt)
insert-Rising keys t (u ∷ us) (above, h) = elim (Bool-cases (before keys u t)) [
  | inl b ↦ rw b (
    All-insert (λ (v : Transfer). u.height ≤ v.height) keys t us (before-height keys u t b) above,
    insert-Rising keys t us h,
  )
  | inr b ↦
      let le = not_before-height keys t u b in
      rw b ((le, AllAbove-lower t.height u.height us le above), (above, h))
]

sort-Rising : (keys : Table Bytes) (ts : List Transfer) → Rising (sort keys ts)
unfolding sort
sort-Rising keys [] = tt
sort-Rising keys (t ∷ ts) = insert-Rising keys t (sort keys ts) (sort-Rising keys ts)

pub sort_transfers-Rising :
    (w : Answers) (h : ℕ) (ts : List Transfer) (blocks : Blocks) (ordered : List Transfer)
    → sort_transfers w h ts ≡ ok (blocks, ordered)
    → All (IsInside h) ordered × Rising ordered
unfolding sort_transfers
sort_transfers-Rising w h ts blocks ordered e =
    let ((blocks', keys), checked, e') = >>=-eq-ok (check_loop w h ts [] []) _ e in
    let same_list : sort keys ts ≡ ordered =
      ap (λ (q : Blocks × List Transfer). q.1) (ok-injective e') in
    subst (λ us. All (IsInside h) us × Rising us) same_list
      (
        All-sort (IsInside h) keys ts (check_loop-IsInside w h ts [] [] _ checked),
        sort-Rising keys ts,
      )
