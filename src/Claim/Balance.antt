-- ===== src/Claim/Balance.antt =====
-- The steps of a claim that start and stop no process, in balance.
use xns.Common.{ℕ, ◌≡◌, refl, List, Bytes, Result, Bool, true, false}
use xns.Session.{Reply, yes, no, Event, ask, lift, ◌>>=◌, deferred, or_first}
use xns.Session.Balance.{
  IsBalanced, IsNeutral, IsBalanced-bind, IsBalanced-lift, IsBalanced-ask, IsBalanced-deferred,
  IsBalanced-or_first,
}
use xns.Network.{Addresses}
use xns.TxSet.Signature.{Crypto}
use xns.Claim.{Config}
use xns.Claim.Calls.{
  get_address, query_key, get_height, get_balance, auto_refresh, refresh, export_key_images,
  import_key_images, transfer, sign_transfer, submit_transfer, Wallet, full, watch, KeyImages, Call,
  start, stop, wait, generate_from_keys, store, outside,
}
use xns.Claim.Run.{
  Steps, WalletState, wait_wallet, sender, read_wallet_state, open_full, make_watch, check_watch,
  pay,
}

-- What a call does that matters outside the claim: it starts or stops a wallet process, or sends.
pub data Kind : Type 0 where
  starting stopping : Wallet → Kind
  sending other : Kind

abbrev pub kind : Call → Kind
kind (start w log args) = starting w
kind (stop w) = stopping w
kind (submit_transfer w set) = sending
kind _ = other

abbrev is_yes : {A : Type 0} → Reply A → Bool
is_yes (yes a) = true
is_yes (no e) = false

-- A count of events by their kind, and whether they succeed.
abbrev pub count : (Kind → Bool → ℕ) → Event outside → ℕ
count f e = f (kind e.call) (is_yes e.reply)

abbrev pub Balanced : {A : Type 0} → (Kind → Bool → ℕ) → (Kind → Bool → ℕ) → Steps A → Type 0
Balanced f g m = IsBalanced (count f) (count g) m

-- Steps of other kinds leave any two counts as they are.
module _ (f g : Kind → Bool → ℕ) (no_start : (b : Bool) → f other b ≡ 0)
    (no_stop : (b : Bool) → g other b ≡ 0) where
  pub Balanced-bind :
      {A B : Type 0} {m : Steps A} {next : A → Steps B}
      → Balanced f g m
      → ((a : A) → Balanced f g (next a))
      → Balanced f g (m >>= next)
  Balanced-bind {m = m} {next = next} hm hf = IsBalanced-bind (count f) (count g) m next hm hf

  pub Balanced-lift : {A : Type 0} (r : Result A) → Balanced f g (lift r)
  Balanced-lift r = IsBalanced-lift (count f) (count g) r

  pub IsNeutral-other : (c : Call) → kind c ≡ other → IsNeutral (count f) (count g) c
  IsNeutral-other c e r = (rw e (no_start (is_yes r)), rw e (no_stop (is_yes r)))

  pub Balanced-ask : (c : Call) → kind c ≡ other → Balanced f g (ask c)
  Balanced-ask c e = IsBalanced-ask (count f) (count g) c (IsNeutral-other c e)

  pub Balanced-deferred :
      {A : Type 0} (c : Call) {m : Steps A}
      → IsNeutral (count f) (count g) c
      → Balanced f g m
      → Balanced f g (deferred c m)
  Balanced-deferred c {m = m} hc hm = IsBalanced-deferred (count f) (count g) c m hc hm

  pub Balanced-or_first :
      {A : Type 0} (c : Call) {m : Steps A}
      → IsNeutral (count f) (count g) c
      → Balanced f g m
      → Balanced f g (or_first c m)
  Balanced-or_first c {m = m} hc hm = IsBalanced-or_first (count f) (count g) c m hc hm

  pub Balanced-wait_wallet :
      (v : Wallet) (label log : Bytes) → Balanced f g (wait_wallet v label log)
  unfolding wait_wallet
  Balanced-wait_wallet v label log =
      Balanced-bind (Balanced-ask (wait v) refl) (λ polls. Balanced-lift _)

  Balanced-sender : (v : Wallet) → Balanced f g (sender v)
  unfolding sender
  Balanced-sender v = Balanced-bind (Balanced-ask (get_address v) refl) (λ address.
      Balanced-bind (Balanced-ask (query_key v) refl)
        (λ key. Balanced-bind (Balanced-lift _) (λ _. Balanced-lift _)))

  Balanced-read_wallet_state : (v : Wallet) → Balanced f g (read_wallet_state v)
  unfolding read_wallet_state
  Balanced-read_wallet_state v =
      Balanced-bind (Balanced-ask (get_height v) refl)
        (λ height. Balanced-bind (Balanced-ask (get_balance v) refl) (λ balance. Balanced-lift _))

  pub Balanced-open_full : (log : Bytes) → Balanced f g (open_full log)
  unfolding open_full
  Balanced-open_full log = Balanced-bind (Balanced-wait_wallet full _ log) (λ _.
      Balanced-bind (Balanced-ask (auto_refresh full false) refl) (λ _.
        Balanced-bind (Balanced-ask (refresh full) refl) (λ _.
          Balanced-bind (Balanced-sender full) (λ found.
            Balanced-bind (Balanced-read_wallet_state full) (λ state.
              Balanced-bind (Balanced-ask (export_key_images full true) refl) (λ key_images.
                Balanced-bind (Balanced-ask (store full) refl) (λ _. Balanced-lift _)))))))

  pub Balanced-check_watch :
      (log address : Bytes) (state : WalletState) (images : KeyImages)
      → Balanced f g (check_watch log address state images)
  unfolding check_watch
  Balanced-check_watch log address state images =
      Balanced-bind (Balanced-wait_wallet watch _ _) (λ _.
        Balanced-bind (Balanced-ask (auto_refresh watch false) refl) (λ _.
          Balanced-bind (Balanced-sender watch) (λ found. Balanced-bind (Balanced-lift _) (λ _.
            Balanced-bind (Balanced-ask (import_key_images watch images) refl)
              (λ _. Balanced-bind (Balanced-read_wallet_state watch) (λ s. Balanced-lift _))))))

  pub Balanced-pay :
      (c : Crypto) (a : Addresses) (draws : List (Result Bytes)) (cfg : Config)
      (payload view : Bytes)
      → ((b : Bool) → f sending b ≡ 0)
      → ((b : Bool) → g sending b ≡ 0)
      → Balanced f g (pay c a draws cfg payload view)
  unfolding pay
  Balanced-pay c a draws cfg payload view hf hg = Balanced-bind (Balanced-lift _) (λ to.
      Balanced-bind (Balanced-ask (transfer watch _) refl) (λ unsigned.
        Balanced-bind (Balanced-lift _) (λ _. Balanced-bind (Balanced-lift _) (λ found.
          Balanced-bind (Balanced-ask (sign_transfer full _) refl) (λ signed.
            Balanced-bind
              (IsBalanced-ask (count f) (count g) (submit_transfer full signed.0)
                (λ r. (hf (is_yes r), hg (is_yes r))))
              (λ _. Balanced-lift _))))))

  pub Balanced-make_watch :
      (cfg : Config) (log address view : Bytes) (height : ℕ)
      → IsNeutral (count f) (count g) (stop watch)
      → Balanced f g (make_watch cfg log address view height)
  unfolding make_watch
  Balanced-make_watch cfg log address view height quiet =
      Balanced-bind (Balanced-or_first (stop watch) quiet (Balanced-wait_wallet watch _ _)) (λ _.
        Balanced-bind
          (Balanced-or_first (stop watch) quiet (Balanced-ask (generate_from_keys watch _) refl))
          (λ _. Balanced-or_first (stop watch) quiet (Balanced-ask (store watch) refl)))
