-- ===== src/Claim/Sending.antt =====
-- When a claim sends a transaction, and which.
use xns.Common.{
  true, ℕ, ◌+◌, ◌≡◌, refl, ◌⊎◌, inl, inr, List, [], ◌∷◌, Bytes, Result, ok, err, Bool, panic, stuck,
  check, length, not, ◌==◌, arith,
}
use xns.Session.{
  Reply, yes, no, Event, Trace, World, ask, lift, to_result, continue_with, ◌>>=◌, ◌>>◌, deferred,
}
use xns.Session.Balance.{total, IsBalanced-bind, IsBalanced-ask, IsBalanced-tell}
use xns.Network.{Addresses, protocol_address}
use xns.TxSet.{TxSetPatch}
use xns.TxSet.Signature.{Crypto}
use xns.TxSet.Seal.{patch_unsigned_hex}
use xns.Claim.{Config, payment}
use xns.Claim.Calls.{
  Call, Answer, full, watch, start, stop, remove_all, make_dir, make_temp_dir, free_port,
  copy_wallet_cache, TransferRequest, SignRequest, transfer, sign_transfer, submit_transfer,
  outside,
}
use xns.Claim.Balance.{
  Kind, sending, other, kind, count, Balanced, Balanced-ask, Balanced-open_full,
  Balanced-check_watch, Balanced-make_watch,
}
use xns.Claim.Run.{Steps, payment_to, signing_of, pay, with_full, with_dir, run}

abbrev sent : Kind → Bool → ℕ
sent sending b = 1
sent _ b = 0

abbrev unsent : Kind → Bool → ℕ
unsent k b = 0

-- How often a transaction was handed over to be sent.
abbrev pub sends : Event outside → ℕ
sends = count sent

abbrev pub submits : Trace outside → ℕ
submits t = total sends (count unsent) sends t

abbrev Quiet : {A : Type 0} → Steps A → Type 0
Quiet m = Balanced sent unsent m

module _ (c : Crypto) (a : Addresses) (draws : List (Result Bytes)) (cfg : Config)
    (payload : Bytes) where
  -- The last three events: the temporary wallet makes an unsigned transaction that pays the years to
  -- the protocol address and is not relayed, and the user's wallet signs the set into which the payload
  -- was patched, and sends what it signed.
  pub record IsPaid (t : Trace outside) : Type 0 where
    pub to : Bytes
    pub request : TransferRequest
    pub signing : SignRequest
    pub unsigned : Bytes
    pub view_secret : Bytes
    pub patched : Bytes
    pub meta : TxSetPatch
    pub signed : Bytes
    pub hashes : List Bytes
    pub sent : Reply (Unit {0})
    pub before : Trace outside
    pub pays_protocol : protocol_address c a cfg.stagenet ≡ ok to
    pub is_patched : patch_unsigned_hex c draws unsigned view_secret payload ≡ ok (patched, meta)
    pub pays : (request.address ≡ to) × (request.amount ≡ payment cfg)
    pub not_relayed : request.do_not_relay ≡ true
    pub signs : signing.unsigned_txset ≡ patched
    pub events :
        t
        ≡ record { call = submit_transfer full signed; reply = sent }
          ∷ record { call = sign_transfer full signing; reply = yes (signed, hashes) }
          ∷ record { call = transfer watch request; reply = yes unsigned }
          ∷ before

  pub data HasPaid : Trace outside → Type 0 where
    here : {t : Trace outside} → IsPaid t → HasPaid t
    later : {t : Trace outside} (e : Event outside) → HasPaid t → HasPaid (e ∷ t)

  -- One transaction more was sent, and it pays.
  abbrev pub PaidOnce : Trace outside → Trace outside → Type 0
  PaidOnce past now = (submits now ≡ submits past + 1) × HasPaid now

  abbrev pub Outcome : {A : Type 0} → Trace outside → Result A × Trace outside → Type 0
  Outcome past (ok r, now) = PaidOnce past now
  Outcome past (_, now) = (submits now ≡ submits past) ⊎ PaidOnce past now

  module _ (base : Trace outside) (w : World outside) where
    lift_then :
        {A B : Type 0} (past : Trace outside) (r : Result A) (f : A → Steps B)
        → submits past ≡ submits base
        → ((x : A) → r ≡ ok x → Outcome base (f x w past))
        → Outcome base ((lift r >>= f) w past)
    unfolding lift ◌>>=◌
    lift_then past (ok x) f same h = h x refl
    lift_then past (err e) f same h = inl same
    lift_then past panic f same h = inl same
    lift_then past stuck f same h = inl same

    replied :
        {B : Type 0} (past : Trace outside) (call : Call) (reply : Reply (Answer call))
        (f : Answer call → Steps B)
        → kind call ≡ other
        → submits past ≡ submits base
        → ((x : Answer call)
            → reply ≡ yes x
            → Outcome base (f x w (record { call = call; reply = yes x } ∷ past)))
        → Outcome base
            (continue_with (to_result reply, record { call = call; reply = reply } ∷ past) f w)
    replied past call (yes x) f other_kind same h = h x refl
    replied past call (no e) f other_kind same h = inl (rw other_kind (omega arith))

    ask_then :
        {B : Type 0} (past : Trace outside) (call : Call) (f : Answer call → Steps B)
        → kind call ≡ other
        → submits past ≡ submits base
        → ((x : Answer call) → Outcome base (f x w (record { call = call; reply = yes x } ∷ past)))
        → Outcome base ((ask call >>= f) w past)
    unfolding ask ◌>>=◌
    ask_then past call f other_kind same h =
        replied past call (w past call) f other_kind same (λ x e. h x)

    sent_then :
        {B : Type 0} (past : Trace outside) (signed : Bytes) (reply : Reply (Unit {0})) (r : B)
        → submits past ≡ submits base
        → IsPaid (record { call = submit_transfer full signed; reply = reply } ∷ past)
        → Outcome base (
            continue_with
              (to_result reply, record { call = submit_transfer full signed; reply = reply } ∷ past)
              (λ _. lift (ok r))
              w)
    unfolding lift
    sent_then past signed (yes u) r same paid = (omega arith, here paid)
    sent_then past signed (no e) r same paid = inr (omega arith, here paid)

    submit_then :
        {B : Type 0} (past : Trace outside) (signed : Bytes) (r : B)
        → submits past ≡ submits base
        → IsPaid (
            record {
              call = submit_transfer full signed;
              reply = w past (submit_transfer full signed);
            }
            ∷ past)
        → Outcome base ((ask (submit_transfer full signed) >> lift (ok r)) w past)
    unfolding ask ◌>>=◌
    submit_then past signed r same paid =
        sent_then past signed (w past (submit_transfer full signed)) r same paid

  pay-Outcome :
      (view_secret : Bytes) (w : World outside) (past : Trace outside)
      → Outcome past (pay c a draws cfg payload view_secret w past)
  unfolding pay
  pay-Outcome view_secret w past =
      lift_then past w past (protocol_address c a cfg.stagenet) _ refl (λ to at_to.
        ask_then past w past (transfer watch (payment_to to (payment cfg))) _ refl refl (λ unsigned.
          let past1 : Trace outside =
            record { call = transfer watch (payment_to to (payment cfg)); reply = yes unsigned }
            ∷ past in
          lift_then past w past1 (check (not (length unsigned == 0)) _) _ (omega arith) (λ _ _.
            lift_then past w past1 (patch_unsigned_hex c draws unsigned view_secret payload) _
              (omega arith)
              (λ found at_found.
                ask_then past w past1 (sign_transfer full (signing_of found.0)) _ refl (omega arith)
                  (λ signed.
                    let past2 : Trace outside =
                      record { call = sign_transfer full (signing_of found.0); reply = yes signed }
                      ∷ past1 in
                    submit_then past w past2 signed.0 _ (omega arith) (record {
                      to = to;
                      request = payment_to to (payment cfg);
                      signing = signing_of found.0;
                      unsigned = unsigned;
                      view_secret = view_secret;
                      patched = found.0;
                      meta = found.1;
                      signed = signed.0;
                      hashes = signed.1;
                      sent = w past2 (submit_transfer full signed.0);
                      before = past;
                      pays_protocol = at_to;
                      is_patched = at_found;
                      pays = (refl, refl);
                      not_relayed = refl;
                      signs = refl;
                      events = refl;
                    }))))))

  -- A session that sends at most one transaction, one that pays, and one at least if it succeeds.
  pub record Sends {A : Type 0} (m : Steps A) : Type 0 where
    pub at : (w : World outside) (past : Trace outside) → Outcome past (m w past)

  unsent-total : (t : Trace outside) → total sends (count unsent) (count unsent) t ≡ 0
  unsent-total [] = refl
  unsent-total (e ∷ t) = omega (arith, unsent-total t)

  Outcome-base :
      {A : Type 0} (past mid : Trace outside) (r : Result A × Trace outside)
      → submits mid ≡ submits past
      → Outcome mid r
      → Outcome past r
  Outcome-base past mid (ok x, now) e (one, paid) = (omega arith, paid)
  Outcome-base past mid (err x, now) e (inl same) = inl (omega arith)
  Outcome-base past mid (err x, now) e (inr (one, paid)) = inr (omega arith, paid)
  Outcome-base past mid (panic, now) e (inl same) = inl (omega arith)
  Outcome-base past mid (panic, now) e (inr (one, paid)) = inr (omega arith, paid)
  Outcome-base past mid (stuck, now) e (inl same) = inl (omega arith)
  Outcome-base past mid (stuck, now) e (inr (one, paid)) = inr (omega arith, paid)

  after_quiet :
      {A B : Type 0} (r : Result A × Trace outside) (f : A → Steps B) (w : World outside)
      (past : Trace outside)
      → submits r.1 ≡ submits past
      → ((x : A) → Sends (f x))
      → Outcome past (continue_with r f w)
  after_quiet (ok x, mid) f w past same h = Outcome-base past mid (f x w mid) same ((h x).at w mid)
  after_quiet (err e, mid) f w past same h = inl same
  after_quiet (panic, mid) f w past same h = inl same
  after_quiet (stuck, mid) f w past same h = inl same

  Sends-after :
      {A B : Type 0} {m : Steps A} {f : A → Steps B}
      → Quiet m
      → ((x : A) → Sends (f x))
      → Sends (m >>= f)
  unfolding ◌>>=◌
  Sends-after {m = m} {f = f} quiet h = record {
    at = λ w past.
        after_quiet (m w past) f w past
          (omega (arith, quiet.at w past, unsent-total past, unsent-total (m w past).1)) h;
  }

  ended_by :
      {A : Type 0} (past : Trace outside) (r : Result A × Trace outside) (e : Event outside)
      → sends e ≡ 0
      → Outcome past r
      → Outcome past (r.0, e ∷ r.1)
  ended_by past (ok x, now) e calm (one, paid) = (omega (arith, calm), later e paid)
  ended_by past (err x, now) e calm (inl same) = inl (omega (arith, calm))
  ended_by past (err x, now) e calm (inr (one, paid)) = inr (omega (arith, calm), later e paid)
  ended_by past (panic, now) e calm (inl same) = inl (omega (arith, calm))
  ended_by past (panic, now) e calm (inr (one, paid)) = inr (omega (arith, calm), later e paid)
  ended_by past (stuck, now) e calm (inl same) = inl (omega (arith, calm))
  ended_by past (stuck, now) e calm (inr (one, paid)) = inr (omega (arith, calm), later e paid)

  Sends-deferred :
      {A : Type 0} (call : Call) {m : Steps A}
      → ((r : Reply (Answer call)) → sends (record { call = call; reply = r }) ≡ 0)
      → Sends m
      → Sends (deferred call m)
  unfolding deferred
  Sends-deferred call {m = m} calm h = record {
    at = λ w past.
        ended_by past (m w past) (record { call = call; reply = w (m w past).1 call })
          (calm (w (m w past).1 call)) (h.at w past);
  }

  Sends-with_full : (dir : Bytes) (port : ℕ) → Sends (with_full c a draws cfg payload dir port)
  unfolding with_full
  Sends-with_full dir port =
      Sends-after (Balanced-open_full sent unsent (λ b. refl) (λ b. refl) _) (λ found.
        Sends-after (Balanced-ask sent unsent (λ b. refl) (λ b. refl) (make_dir _) refl) (λ _.
          Sends-after
            (IsBalanced-bind _ _ _ _ (IsBalanced-ask _ _ (start watch _ _) (λ r. (refl, refl)))
              (λ _.
                IsBalanced-bind _ _ _ _
                  (Balanced-make_watch sent unsent (λ b. refl) (λ b. refl) cfg _ _ _ _
                    (λ r. (refl, refl)))
                  (λ _. IsBalanced-tell _ _ (stop watch) (λ r. (refl, refl)))))
            (λ _.
              Sends-after
                (Balanced-ask sent unsent (λ b. refl) (λ b. refl) (copy_wallet_cache _ _) refl)
                (λ _. Sends-after (IsBalanced-ask _ _ (start watch _ _) (λ r. (refl, refl))) (λ _.
                  Sends-deferred (stop watch) (λ r. refl)
                    (Sends-after (Balanced-check_watch sent unsent (λ b. refl) (λ b. refl) _ _ _ _)
                      (λ _. record { at = λ w past. pay-Outcome _ w past })))))))

  Sends-run : Sends (run c a draws cfg payload)
  unfolding run with_dir
  Sends-run =
      Sends-after (Balanced-ask sent unsent (λ b. refl) (λ b. refl) make_temp_dir refl) (λ dir.
        Sends-deferred (remove_all dir) (λ r. refl)
          (Sends-after (Balanced-ask sent unsent (λ b. refl) (λ b. refl) free_port refl)
            (λ full_port.
              Sends-after (Balanced-ask sent unsent (λ b. refl) (λ b. refl) free_port refl)
                (λ watch_port.
                  Sends-after (IsBalanced-ask _ _ (start full _ _) (λ r. (refl, refl))) (λ _.
                    Sends-deferred (stop full) (λ r. refl) (Sends-with_full dir watch_port))))))

  -- Whatever is replied, a claim hands over at most one transaction to be sent, and exactly one if it
  -- succeeds: the user's wallet sends what it signed when it was given the set that
  -- PatchUnsignedTxSetHex made, with the payload, of an unsigned set of the temporary wallet, which was
  -- asked to pay the years' amount to the protocol address and not to relay the transaction.
  pub run-sends : (world : World outside) → Outcome [] (run c a draws cfg payload world [])
  run-sends world = Sends-run.at world []
