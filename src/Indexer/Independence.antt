-- ===== src/Indexer/Independence.antt =====
-- The order in which the wallet lists transfers does not matter for their order in a scan.
use xns.Common.{ℕ, ◌≡◌, refl, sym, ap, ◌∙◌, some, List, [], Bytes, ok, >>=-eq-ok, ok-injective}
use mathlib.Core.List.{Permᴰ}
use xns.Common.Table.{get}
use xns.Indexer.{Transfer, Answers}
use xns.Indexer.Ordering.{Blocks, find_block, check_loop, before, sort, sort_transfers}
use xns.Indexer.Shuffle.{All-Permᴰ, AllPairs-Permᴰ, sort_by_shuffled}
use xns.Indexer.Shuffle.Comparison.{
  AreDistinct, AllDistinct, AreDistinct-sym, AllDistinct-AllApart, before_weak, sort-Agree,
  sort-sort_by,
}
use xns.Indexer.Shuffle.Keys.{
  IsConsistent, HasKey, AreNew-nil, check_loop-AreKeyed, check_loop-ok, AreKeyed-Agree,
  AreKeyed-Passing,
}

-- Where no two transfers are of one transaction and sortTransfers succeeds, it succeeds for every
-- arrangement of the same transfers, and puts them into the same order.
pub sort_transfers_shuffled :
    (w : Answers) (h : ℕ) (ts us : List Transfer) (blocks : Blocks) (ordered : List Transfer)
    → AllDistinct ts
    → Permᴰ ts us
    → sort_transfers w h ts ≡ ok (blocks, ordered)
    → (others : Blocks) × (sort_transfers w h us ≡ ok (others, ordered))
unfolding sort_transfers find_block
sort_transfers_shuffled w h ts us blocks ordered d shuffled e =
    let start : IsConsistent w [] = record { at = λ k b stands. cc } in
    let ((blocks', keys), checked, e') = >>=-eq-ok (check_loop w h ts [] []) _ e in
    let keyed =
      (check_loop-AreKeyed w h ts [] [] (blocks', keys) start d (AreNew-nil ts) checked).0 in
    let d' = AllPairs-Permᴰ AreDistinct AreDistinct-sym shuffled d in
    let keyed' =
      All-Permᴰ (λ (t : Transfer). (key : Bytes) × HasKey w h t key × (get keys t.txid ≡ some key))
        shuffled keyed in
    let ((others, keys'), again) =
      check_loop-ok w h us [] [] start (AreKeyed-Passing w h keys us keyed') in
    let rekeyed =
      (check_loop-AreKeyed w h us [] [] (others, keys') start d' (AreNew-nil us) again).0 in
    let agree = (sort-Agree keys' keys us (AreKeyed-Agree w h keys' keys us rekeyed keyed')).0 in
    let sorted : sort keys us ≡ sort keys ts =
      sort-sort_by keys us
      ∙ sym (
          sort_by_shuffled (before keys) (before_weak keys) shuffled
            (AllDistinct-AllApart keys ts d))
      ∙ sym (sort-sort_by keys ts) in
    let same_list : sort keys ts ≡ ordered =
      ap (λ (q : Blocks × List Transfer). q.1) (ok-injective e') in
    (others, rw (again, agree, sorted, same_list) refl)
