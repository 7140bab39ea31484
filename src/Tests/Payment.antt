-- ===== src/Tests/Payment.antt =====
-- Runs of a claim against replies, and of pkg/xns/address.go.
use xns.Common.{ℕ, ◌≡◌, refl, true, [], ◌∷◌, ◌++◌, codes, replicate, ok, foreign}
use xns.Hex
use xns.Edwards.{from_le}
use xns.Session.{yes, World}
use xns.Session.Balance.{total}
use xns.Network.{Addresses, protocol_address, public_key_bytes, protocol_spend_public_key_input}
use xns.Network.Address.{protocol_address_lem, view_secret}
use xns.Claim.Calls.{
  watch, Poll, make_temp_dir, free_port, remove_all, make_dir, copy_wallet_cache, start, stop, wait,
  auto_refresh, refresh, get_address, query_key, get_height, get_balance, store, export_key_images,
  import_key_images, generate_from_keys, transfer, sign_transfer, submit_transfer, outside,
}
use xns.Claim.Run.{run}
use xns.Claim.Processes.{starts, stops, run-balanced}
use xns.Claim.Sending.{Outcome, run-sends}
use xns.Tests.Data.{payload_bytes}
use xns.Tests.TxSet.{toy, draws, sealed, tx_key}
use xns.Tests.Claim.{config}

abbrev pub some_addresses : Addresses
some_addresses = record {
  biased_hash_to_point = λ bs. replicate 32 1;
  from_raw = λ prefix spend view. prefix ∷ spend ++ view;
}

pub stagenet_address :
    (s : ℕ) × (ok (from_le view_secret) ≡ ok s)
    × (protocol_address toy some_addresses true
        ≡ ok (
            some_addresses.from_raw 24
              (public_key_bytes
                (some_addresses.biased_hash_to_point protocol_spend_public_key_input))
              (public_key_bytes (toy.scalar_base_mult s))))
stagenet_address =
    protocol_address_lem toy some_addresses true (λ raw size small. (from_le raw, refl))

-- Every call succeeds, and the temporary wallet is the user's.
abbrev happy : World outside
happy past make_temp_dir = yes (codes "/tmp/xns")
happy past free_port = yes 4000
happy past (wait w) = yes (Poll.failed (foreign []) ∷ Poll.ready ∷ [])
happy past (get_address w) = yes (codes "4A")
happy past (query_key w) = yes (Hex.encode tx_key)
happy past (get_height w) = yes 100
happy past (get_balance w) = yes (7, 7)
happy past (export_key_images w all) = yes (0, [])
happy past (transfer w request) = yes (Hex.encode sealed)
happy past (sign_transfer w request) = yes (codes "signed", codes "hash" ∷ [])
happy past (remove_all dir) = yes tt
happy past (make_dir dir) = yes tt
happy past (copy_wallet_cache from to) = yes tt
happy past (start w log args) = yes tt
happy past (stop w) = yes tt
happy past (auto_refresh w enable) = yes tt
happy past (refresh w) = yes tt
happy past (store w) = yes tt
happy past (import_key_images w images) = yes tt
happy past (generate_from_keys w request) = yes tt
happy past (submit_transfer w set) = yes tt

run-balanced_example :
    let (result, trace) = run toy some_addresses draws config payload_bytes happy [] in
    total (starts watch) (stops watch) (starts watch) trace
    ≡ total (starts watch) (stops watch) (stops watch) trace
run-balanced_example = run-balanced toy some_addresses draws config payload_bytes watch happy

run-sends_example :
    Outcome toy some_addresses draws config payload_bytes []
      (run toy some_addresses draws config payload_bytes happy [])
run-sends_example = run-sends toy some_addresses draws config payload_bytes happy
