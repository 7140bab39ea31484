-- ===== src/Tests/Shuffle.antt =====
-- The transfers of the indexer's runs, in another arrangement.
use xns.Common.{◌≡◌, refl, [], ◌∷◌, codes, same, less, ok}
use mathlib.Core.List.{Permᴰ}
use xns.Hex
use xns.Common.Table.{get, put}
use xns.Indexer.Ordering.{
  Blocks, find_block, contains, fetch_block, check_loop, add_key, same_block_key, key_of, before,
  insert, sort, sort_transfers,
}
use xns.Indexer.Independence.{sort_transfers_shuffled}
use xns.Tests.Indexer.{chain, payment, low}

abbrev listed : Blocks
listed =
    (3, record { hash = codes "cc"; tx_hashes = codes "aa" ∷ codes "bb" ∷ [] })
    ∷ (5, record { hash = codes "cc"; tx_hashes = codes "aa" ∷ codes "bb" ∷ [] })
    ∷ []

sort_run : sort_transfers chain 100 (payment ∷ low ∷ []) ≡ ok (listed, low ∷ payment ∷ [])
unfolding sort_transfers check_loop contains fetch_block add_key same_block_key find_block sort
    insert before key_of get put same less codes Hex.decode
sort_run = refl

sort_transfers_shuffled_example :
    (others : Blocks) × (sort_transfers chain 100 (low ∷ payment ∷ [])
      ≡ ok (others, low ∷ payment ∷ []))
unfolding same codes
sort_transfers_shuffled_example =
    sort_transfers_shuffled chain 100 (payment ∷ low ∷ []) (low ∷ payment ∷ []) listed
      (low ∷ payment ∷ []) ((refl, tt), (tt, tt)) (Permᴰ.swap refl refl) sort_run
