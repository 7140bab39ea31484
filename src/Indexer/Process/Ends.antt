-- ===== src/Indexer/Process/Ends.antt =====
-- protocolWallet calls itself at most once, where a file that was removed is not there.
use xns.Common.{
  ℕ, suc, ◌≡◌, ◌≢◌, same_self, refl, Error, Bool, Bool-cases, inl, inr, true, false, Option, none,
  some, List, [], ◌∷◌, Bytes, same, Result, ok, err, panic, stuck, if◌then◌else◌,
}
use xns.Session.{
  Reply, yes, no, Trace, World, to_result, ask, tell, lift, continue_with, ◌>>=◌, clean_up,
  or_first,
}
use xns.Network.{Addresses, protocol_address}
use xns.TxSet.Signature.{Crypto}
use xns.Indexer.Process.{
  Config, FileStatus, found, missing, unreadable, Poll, Call, make_dir, remove, file_status,
  free_port, stop, wait, get_address, generate_from_keys, outside, Steps, wait_loop, wait_wallet,
  stat, wallet_address_matches, remove_files, remove_wallet_files, wallet_file_of, keys_of,
  is_protocol_wallet, generate, start_call, finish_wallet, with_process, protocol_wallet,
}

-- What an event says of a file: it was removed (or was not there), wallet files were made, or nothing.
abbrev pub after_call : Bytes → Bool → (c : Call) → Reply (outside.Answer c) → Bool
after_call path before (remove other) (yes u) = if same other path then true else before
after_call path before (generate_from_keys h n a v) r = false
after_call path before c r = before

-- A file was removed, and no wallet's files were made since.
abbrev pub is_removed : Bytes → Trace outside → Bool
is_removed path [] = false
is_removed path (e ∷ past) = after_call path (is_removed path past) e.call e.reply

-- Files stay removed until a wallet's files are made.
abbrev pub StaysRemoved : Bytes → World outside → Type 0
StaysRemoved path world =
    (past : Trace outside)
    → is_removed path past ≡ true
    → world past (file_status path) ≡ yes missing

module _ (world : World outside) where
  -- No loop has run out of fuel, and a result has a trace of some kind.
  abbrev Good : {A : Type 0} → (Trace outside → Type 0) → Result A × Trace outside → Type 0
  Good P (ok a, now) = P now
  Good P (stuck, now) = true ≡ false
  Good P _ = Unit {0}

  record Ends {A : Type 0} (P Q : Trace outside → Type 0) (m : Steps A) : Type 0 where
    at : (past : Trace outside) → P past → Good Q (m world past)

  abbrev Any : Trace outside → Type 0
  Any t = Unit {0}

  Good-continue_with :
      {A B : Type 0} (Q R : Trace outside → Type 0) (r : Result A × Trace outside) (f : A → Steps B)
      → Good Q r
      → ((a : A) → Ends Q R (f a))
      → Good R (continue_with r f world)
  Good-continue_with Q R (ok a, now) f h hf = (hf a).at now h
  Good-continue_with Q R (err e, now) f h hf = tt
  Good-continue_with Q R (panic, now) f h hf = tt
  Good-continue_with Q R (stuck, now) f h hf = h

  Ends-bind :
      {A B : Type 0} {P Q R : Trace outside → Type 0} {m : Steps A} {f : A → Steps B}
      → Ends P Q m
      → ((a : A) → Ends Q R (f a))
      → Ends P R (m >>= f)
  unfolding ◌>>=◌
  Ends-bind {Q = Q} {R = R} {m = m} {f = f} hm hf = record {
    at = λ past h. Good-continue_with Q R (m world past) f (hm.at past h) hf;
  }

  -- A first step whose result is known.
  Ends-known :
      {A B : Type 0} {P Q R : Trace outside → Type 0} (m : Steps A) (a : A) (f : A → Steps B)
      → ((past : Trace outside)
          → P past
          → (now : Trace outside) × (m world past ≡ (ok a, now)) × Q now)
      → Ends Q R (f a)
      → Ends P R (m >>= f)
  unfolding ◌>>=◌
  Ends-known m a f known h = record {
    at = λ past p. let (now, e, q) = known past p in rw e (h.at now q);
  }

  Ends-ok : {A : Type 0} {P : Trace outside → Type 0} (a : A) → Ends P P (lift {A = A} (ok a))
  unfolding lift
  Ends-ok a = record { at = λ past h. h }

  Good-reply :
      {A : Type 0} (Q : Trace outside → Type 0) (now : Trace outside) (r : Reply A)
      → Q now
      → Good Q (to_result r, now)
  Good-reply Q now (yes a) h = h
  Good-reply Q now (no e) h = tt

  -- A call that leaves every trace of the kind.
  abbrev Keeps : (Trace outside → Type 0) → Call → Type 0
  Keeps P c =
      (past : Trace outside) (r : Reply (outside.Answer c))
      → P past
      → P (record { call = c; reply = r } ∷ past)

  Ends-ask : {P : Trace outside → Type 0} (c : Call) → Keeps P c → Ends P P (ask c)
  unfolding ask
  Ends-ask {P = P} c keeps = record {
    at = λ past h.
        Good-reply P (record { call = c; reply = world past c } ∷ past) (world past c)
          (keeps past (world past c) h);
  }

  Ends-Any : (c : Call) → Ends Any Any (ask c)
  Ends-Any c = Ends-ask c (λ past r h. tt)

  Good-clean_up :
      {A : Type 0} (Q : Trace outside → Type 0) (c : Call) (r : Result A × Trace outside)
      → Good Q r
      → Good Q (clean_up c world r)
  Good-clean_up Q c (ok a, now) h = h
  Good-clean_up Q c (err e, now) h = tt
  Good-clean_up Q c (panic, now) h = h
  Good-clean_up Q c (stuck, now) h = h

  Ends-or_first :
      {A : Type 0} {P Q : Trace outside → Type 0} {m : Steps A}
      → Ends P Q m
      → Ends P Q (or_first stop m)
  unfolding or_first
  Ends-or_first {Q = Q} {m = m} h = record {
    at = λ past p. Good-clean_up Q stop (m world past) (h.at past p);
  }

  Good-wait_loop :
      (Q : Trace outside → Type 0) (now : Trace outside) (log : Bytes) (last : Option Error)
      (polls : List Poll)
      → Q now
      → Good Q (wait_loop log last polls, now)
  unfolding wait_loop
  Good-wait_loop Q now log last [] h = tt
  Good-wait_loop Q now log last (Poll.exited ∷ polls) h = tt
  Good-wait_loop Q now log last (Poll.ready ∷ polls) h = h
  Good-wait_loop Q now log last (Poll.failed e ∷ polls) h =
      Good-wait_loop Q now log (some e) polls h

  Ends-wait_wallet :
      {P : Trace outside → Type 0} (log : Bytes) → Keeps P wait → Ends P P (wait_wallet log)
  unfolding wait_wallet lift
  Ends-wait_wallet {P = P} log keeps =
      Ends-bind (Ends-ask wait keeps)
        (λ polls. record { at = λ past h. Good-wait_loop P past log none polls h })

  Ends-stat : (path : Bytes) → Ends Any Any (stat path)
  unfolding stat
  Ends-stat path = record { at = λ past h. tt }

  module _ (c : Crypto) (a : Addresses) (cfg : Config) (address : Bytes)
      (has_address : protocol_address c a cfg.stagenet ≡ ok address)
      (stays : StaysRemoved (keys_of (wallet_file_of cfg)) world) where
    abbrev keys : Bytes
    keys = keys_of (wallet_file_of cfg)

    abbrev Gone : Trace outside → Type 0
    Gone past = is_removed keys past ≡ true

    Ends-stat-Gone :
        {A : Type 0} {R : Trace outside → Type 0} (f : FileStatus → Steps A)
        → Ends Gone R (f missing)
        → Ends Gone R (stat keys >>= f)
    unfolding stat
    Ends-stat-Gone f h =
        Ends-known (stat keys) missing f
          (λ past p. (
            record { call = file_status keys; reply = yes missing } ∷ past,
            rw (stays past p) refl,
            p,
          ))
          h

    Keeps-remove : (path : Bytes) → Keeps Gone (remove path)
    Keeps-remove path past (no e) h = h
    Keeps-remove path past (yes u) h = elim (Bool-cases (same path keys)) [
      | inl b ↦ rw b refl
      | inr b ↦ rw b h
    ]

    Ends-is_protocol_wallet :
        (status : FileStatus) → Ends Any Any (is_protocol_wallet c a cfg status)
    unfolding is_protocol_wallet wallet_address_matches
    Ends-is_protocol_wallet missing = Ends-ok true
    Ends-is_protocol_wallet unreadable = Ends-ok true
    Ends-is_protocol_wallet found =
        rw has_address
          (Ends-bind (Ends-ok address) (λ want. Ends-bind (Ends-Any get_address) (λ at. Ends-ok _)))

    Ends-generate : (status : FileStatus) → Ends Any Any (generate c a cfg status)
    unfolding generate
    Ends-generate found = Ends-ok tt
    Ends-generate unreadable = Ends-ok tt
    Ends-generate missing =
        rw has_address (Ends-bind (Ends-ok address) (λ at. Ends-Any (generate_from_keys _ _ at _)))

    Ends-matching :
        (again : Steps ℕ) (port : ℕ) → Ends Any Any (finish_wallet c a cfg again port true)
    unfolding finish_wallet
    Ends-matching again port =
        Ends-bind (Ends-stat keys)
          (λ status. Ends-bind (Ends-or_first (Ends-generate status)) (λ _. Ends-ok port))

    Good-removed :
        (past : Trace outside) (r : Reply (Unit {0}))
        → Good Gone (to_result r, record { call = remove keys; reply = r } ∷ past)
    Good-removed past (yes u) = rw (same_self keys) refl
    Good-removed past (no e) = tt

    Ends-remove_keys : Ends Any Gone (ask (remove keys))
    unfolding ask
    Ends-remove_keys = record { at = λ past h. Good-removed past (world past (remove keys)) }

    Ends-remove_wallet_files : Ends Any Gone (remove_wallet_files (wallet_file_of cfg))
    unfolding remove_wallet_files remove_files
    Ends-remove_wallet_files = Ends-bind (Ends-Any (remove (wallet_file_of cfg))) (λ _.
        Ends-bind Ends-remove_keys
          (λ _. Ends-bind (Ends-ask (remove _) (Keeps-remove _)) (λ _. Ends-ok tt)))

    Ends-tell : (call : Call) → Ends Any Any (tell call)
    unfolding tell
    Ends-tell call = record { at = λ past h. tt }

    Ends-finish_wallet :
        (again : Steps ℕ) (port : ℕ) (matches : Bool)
        → Ends Gone Any again
        → Ends Any Any (finish_wallet c a cfg again port matches)
    unfolding finish_wallet
    Ends-finish_wallet again port true h = Ends-matching again port
    Ends-finish_wallet again port false h =
        Ends-bind (Ends-tell stop) (λ _. Ends-bind Ends-remove_wallet_files (λ _. h))

    -- The second round finds no keys, so it compares nothing.
    Ends-with_process-Gone :
        (again : Steps ℕ) (port : ℕ) → Ends Gone Any (with_process c a cfg again port)
    unfolding with_process is_protocol_wallet or_first lift
    Ends-with_process-Gone again port =
        Ends-bind (Ends-or_first (Ends-wait_wallet _ (λ past r h. h))) (λ _. Ends-stat-Gone _ (
          Ends-known _ true (finish_wallet c a cfg again port) (λ past p. (past, refl, tt))
            (Ends-matching again port)))

    Ends-start_call :
        (port : ℕ) (status : FileStatus) → Ends Gone Gone (ask (start_call c a cfg port status))
    unfolding start_call
    Ends-start_call port found = Ends-ask {P = Gone} (start_call c a cfg port found) (λ past r h. h)
    Ends-start_call port missing =
        Ends-ask {P = Gone} (start_call c a cfg port missing) (λ past r h. h)
    Ends-start_call port unreadable =
        Ends-ask {P = Gone} (start_call c a cfg port unreadable) (λ past r h. h)

    Ends-again : (fuel : ℕ) → Ends Gone Any (protocol_wallet c a cfg (suc fuel))
    unfolding protocol_wallet
    Ends-again fuel = Ends-bind (Ends-ask (make_dir _) (λ past r h. h)) (λ _.
        Ends-bind (Ends-ask free_port (λ past r h. h)) (λ port. Ends-stat-Gone _ (
          Ends-bind (Ends-start_call port missing)
            (λ _. Ends-with_process-Gone (protocol_wallet c a cfg fuel) port))))

    Ends-protocol_wallet : (fuel : ℕ) → Ends Any Any (protocol_wallet c a cfg (suc (suc fuel)))
    unfolding protocol_wallet with_process
    Ends-protocol_wallet fuel = Ends-bind (Ends-Any (make_dir _)) (λ _.
        Ends-bind (Ends-Any free_port) (λ port. Ends-bind (Ends-stat _) (λ status.
          Ends-bind (Ends-Any (start_call c a cfg port status)) (λ _.
            Ends-bind (Ends-or_first (Ends-wait_wallet _ (λ past r h. tt))) (λ _.
              Ends-bind (Ends-stat _) (λ now.
                Ends-bind (Ends-or_first (Ends-is_protocol_wallet now)) (λ matches.
                  Ends-finish_wallet (protocol_wallet c a cfg (suc fuel)) port matches
                    (Ends-again fuel))))))))

    ends-ne-stuck : {A : Type 0} (r : Result A × Trace outside) → Good Any r → r.0 ≢ stuck
    ends-ne-stuck (ok x, now) h e = cc
    ends-ne-stuck (err x, now) h e = cc
    ends-ne-stuck (panic, now) h e = cc
    ends-ne-stuck (stuck, now) h e = cc

    -- Where a file that was removed is not there until a wallet's files are made, and where there is a
    -- protocol address, protocolWallet ends, from any trace, and calls itself at most once.
    pub protocol_wallet_ends :
        (fuel : ℕ) (past : Trace outside)
        → (protocol_wallet c a cfg (suc (suc fuel)) world past).0 ≢ stuck
    protocol_wallet_ends fuel past =
        ends-ne-stuck (protocol_wallet c a cfg (suc (suc fuel)) world past)
          ((Ends-protocol_wallet fuel).at past tt)
