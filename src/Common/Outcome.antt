-- ===== src/Common/Outcome.antt =====
-- What a Go function that may fail gives back, and the errors that the program makes.
use Prim.Native.Nat.{ℕ, zero, suc}
use mathlib.Core.List.{List, [], ◌∷◌}
use mathlib.Core.Path.{◌≡◌, refl}
use mathlib.Core.Logic.{◌≢◌}
use mathlib.Core.Bool.{Bool, true, false}
use xns.Common.Text.{Bytes}
use xns.Common.Int.{ℤ}

pub data Error : Type 0 where
  -- pkg/xns/protocol.go
  name_length name_charset name_start name_end : Error
  name_field_size name_padding payload_length owner_key_length owner_key_zero : Error
  amount_below amount_multiple : Error
  -- strconv
  number_syntax number_range : Bytes → Error
  -- encoding/hex
  hex_invalid_byte : ℕ → Error
  hex_odd_length : Error
  -- pkg/xns/edwards.go
  point_size point_y point_off_curve point_sign point_identity point_subgroup : Error
  -- pkg/xns/extra.go
  nonce_length nonce_data extra_overrun varint_large varint_truncated : Error
  unsupported_tag : ℕ → Error
  -- pkg/monero/rpc.go
  extra_byte_range empty_block_hash : ℕ → Error
  height_status block_status : Bytes → Error
  rpc_error : ℤ → Bytes → Error
  http_status decode_response : Bytes → Bytes → Error
  -- pkg/monero/txset.go
  not_unsigned_tx_set tx_set_short chacha_nonce_size tx_set_payload : Error
  extra_not_found extra_no_pub_key extra_too_long secret_size hash_size scalar_size : Error
  scalar_overflow : Error
  extra_ambiguous : ℕ → Error
  invalid_secret : Bytes → Error
  -- pkg/claim/claim.go
  network_choice claim_wallet claim_password claim_years node_required : Error
  view_key_size watch_address no_unsigned_tx_set : Error
  watch_state : ℕ → ℕ → ℕ → ℕ → ℕ → ℕ → Error
  wallet_exited wallet_not_ready : Bytes → Bytes → Error
  cache_not_regular : Error
  cache_step : Bytes → Bytes → Error
  -- pkg/xns/address.go
  view_secret_size : Error
  -- pkg/indexer/indexer.go
  no_anchor chain_changed listen_required data_dir_required : Error
  rpc_exited rpc_not_ready : Bytes → Error
  wallet_height : ℕ → ℕ → Error
  transfer_height : Bytes → ℕ → ℕ → Error
  transfer_not_in_block : Bytes → ℕ → Error
  transaction_status : Bytes → Bytes → Error
  transaction_count : ℕ → Bytes → Error
  transaction_mismatch : Bytes → Error
  -- pkg/store/store.go
  event_row : Bytes → Bytes → Error
  -- pkg/lookup/lookup.go and cmd/xns/main.go
  indexer_required one_name : Error
  flag_required : Bytes → Error
  -- an error of code outside the program, by its text
  foreign : Bytes → Error

-- A value, an error, a run-time panic, or (for a loop on fuel) no end within the fuel.
pub data Result {ℓ} (A : Type ℓ) : Type ℓ where
  ok : A → Result A
  err : Error → Result A
  panic : Result A
  stuck : Result A

infixl 5 ◌>>=◌ ◌>>◌
abbrev pub ◌>>=◌ {ℓ κ} : {A : Type ℓ} {B : Type κ} → Result A → (A → Result B) → Result B
err failed >>= next = err failed
panic >>= next = panic
stuck >>= next = stuck
ok value >>= next = next value

-- `if !test { return err }`
abbrev pub check : Bool → Error → Result (Unit {0})
check false failed = err failed
check true failed = ok tt

abbrev pub ◌>>◌ {ℓ} : {B : Type ℓ} → Result (Unit {0}) → Result B → Result B
first >> second = first >>= λ _. second

-- A check that passes holds.
pub check→true : (b : Bool) (e : Error) {u : Unit {0}} → check b e ≡ ok u → b ≡ true
check→true true e h = refl
check→true false e h = cc

pub ok-injective {ℓ} : {A : Type ℓ} {a b : A} → ok a ≡ ok b → a ≡ b
ok-injective e = cc

-- Two steps that succeed together succeed one after the other.
pub >>=-eq-ok {ℓ κ} :
    {A : Type ℓ} {B : Type κ} (first : Result A) (next : A → Result B) {b : B}
    → (first >>= next) ≡ ok b
    → (value : A) × (first ≡ ok value) × (next value ≡ ok b)
>>=-eq-ok (err e) next h = cc
>>=-eq-ok panic next h = cc
>>=-eq-ok stuck next h = cc
>>=-eq-ok (ok value) next h = (value, refl, h)

-- `xs[i]`, which panics out of range.
unfoldable pub index {ℓ} : {A : Type ℓ} → List A → ℕ → Result A
index [] i = panic
index (x ∷ xs) zero = ok x
index (x ∷ xs) (suc i) = index xs i

-- A value, an error or a panic.
unfoldable pub HasEnded {ℓ} : {A : Type ℓ} → Result A → Type 0
HasEnded (ok a) = Unit {0}
HasEnded (err e) = Unit {0}
HasEnded panic = Unit {0}
HasEnded stuck = true ≡ false

pub HasEnded-bind {ℓ κ} :
    {A : Type ℓ} {B : Type κ} (r : Result A) (f : A → Result B)
    → HasEnded r
    → ((a : A) → r ≡ ok a → HasEnded (f a))
    → HasEnded (r >>= f)
unfolding HasEnded
HasEnded-bind (ok a) f h hf = hf a refl
HasEnded-bind (err e) f h hf = tt
HasEnded-bind panic f h hf = tt
HasEnded-bind stuck f h hf = h

pub HasEnded-check : (b : Bool) (e : Error) → HasEnded (check b e)
unfolding HasEnded
HasEnded-check true e = tt
HasEnded-check false e = tt

pub HasEnded-index : (xs : Bytes) (i : ℕ) → HasEnded (index xs i)
unfolding index HasEnded
HasEnded-index [] i = tt
HasEnded-index (x ∷ xs) zero = tt
HasEnded-index (x ∷ xs) (suc i) = HasEnded-index xs i

pub HasEnded-ok {ℓ} : {A : Type ℓ} (a : A) → HasEnded (ok a)
unfolding HasEnded
HasEnded-ok a = tt

pub HasEnded-err {ℓ} : (A : Type ℓ) (e : Error) → HasEnded {A = A} (err e)
unfolding HasEnded
HasEnded-err A e = tt

-- What has ended is not on its way.
pub HasEnded-stuck {ℓ} : {A : Type ℓ} (r : Result A) → HasEnded r → r ≢ stuck
unfolding HasEnded
HasEnded-stuck (ok a) h e = cc
HasEnded-stuck (err x) h e = cc
HasEnded-stuck panic h e = cc
HasEnded-stuck stuck h e = cc
