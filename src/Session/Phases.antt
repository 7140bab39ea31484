-- ===== src/Session/Phases.antt =====
-- Code whose calls follow an order: the phases of what it works on, and where each call leads.
use xns.Common.{
  Bool, check, if◌then◌else◌, ok-injective, subst, sym, ◌≡◌, refl, true, false, Option, none, some,
  [], ◌∷◌, Error, Result, ok, err, panic, stuck,
}
use xns.Session.{
  Outside, Reply, yes, no, Event, Trace, World, Session, to_result, ask, tell, lift, continue_with,
  ◌>>=◌, clean_up, or_first, deferred,
}

-- What a call with its reply leads to from a phase, if it is allowed there.
module _ {o : Outside} {Q : Type 0} (next : (c : o.Call) → Reply (o.Answer c) → Q → Option Q)
    (first : Q) where
  abbrev pub advance : Event o → Option Q → Option Q
  advance e none = none
  advance e (some q) = next e.call e.reply q

  -- The phase behind a trace, if all of it was allowed.
  abbrev pub phase : Trace o → Option Q
  phase [] = some first
  phase (e ∷ past) = advance e (phase past)

  -- The phase behind a result, or an error; there is no panic.
  abbrev pub Ends : {A : Type 0} → (A → Q) → Q → Result A × Trace o → Type 0
  Ends after failed (ok a, now) = phase now ≡ some (after a)
  Ends after failed (err e, now) = phase now ≡ some failed
  Ends after failed (panic, now) = true ≡ false
  Ends after failed (stuck, now) = true ≡ false

  module _ (w : World o) where
    pub record Moves {A : Type 0} (before : Q) (after : A → Q) (failed : Q) (m : Session o A)
        : Type 0 where
      pub at : (past : Trace o) → phase past ≡ some before → Ends after failed (m w past)

    Ends-continue_with :
        {A B : Type 0} {after : A → Q} {end : B → Q} {failed : Q} (r : Result A × Trace o)
        (f : A → Session o B)
        → Ends after failed r
        → ((a : A) → Moves (after a) end failed (f a))
        → Ends end failed (continue_with r f w)
    Ends-continue_with (ok a, now) f h hf = (hf a).at now h
    Ends-continue_with (err e, now) f h hf = h
    Ends-continue_with (panic, now) f h hf = h
    Ends-continue_with (stuck, now) f h hf = h

    Ends-clean_up :
        {A : Type 0} (after : A → Q) (between failed : Q) (c : o.Call) (r : Result A × Trace o)
        → ((reply : Reply (o.Answer c)) → next c reply between ≡ some failed)
        → Ends after between r
        → Ends after failed (clean_up c w r)
    Ends-clean_up after between failed c (ok a, now) allowed h = h
    Ends-clean_up after between failed c (err e, now) allowed h = rw h (allowed (w now c))
    Ends-clean_up after between failed c (panic, now) allowed h = h
    Ends-clean_up after between failed c (stuck, now) allowed h = h

    Ends-continue_given :
        {A B : Type 0} {q failed : Q} {end : B → Q} (a : A) (r : Result A × Trace o)
        (f : A → Session o B)
        → Ends (λ _. q) failed r
        → ((a' : A) → r.0 ≡ ok a' → a' ≡ a)
        → Moves q end failed (f a)
        → Ends end failed (continue_with r f w)
    Ends-continue_given {q = q} {failed = failed} {end = end} a (ok a', now) f h given hf =
        let same : a' ≡ a = given a' refl in
        subst (λ x. Ends end failed (f x w now)) (sym same) (hf.at now h)
    Ends-continue_given a (err e, now) f h given hf = h
    Ends-continue_given a (panic, now) f h given hf = h
    Ends-continue_given a (stuck, now) f h given hf = h

    Ends-deferred :
        {A : Type 0} (done closed failed given_up : Q) (c : o.Call) (r : Result A × Trace o)
        → ((reply : Reply (o.Answer c)) → next c reply done ≡ some closed)
        → ((reply : Reply (o.Answer c)) → next c reply failed ≡ some given_up)
        → Ends (λ _. done) failed r
        → Ends (λ _. closed) given_up (r.0, record { call = c; reply = w r.1 c } ∷ r.1)
    Ends-deferred done closed failed given_up c (ok a, now) on_ok on_err h = rw h (on_ok (w now c))
    Ends-deferred done closed failed given_up c (err e, now) on_ok on_err h =
        rw h (on_err (w now c))
    Ends-deferred done closed failed given_up c (panic, now) on_ok on_err h = h
    Ends-deferred done closed failed given_up c (stuck, now) on_ok on_err h = h

    pub phase_at_end :
        {A : Type 0} (r : Result A × Trace o) → (q : Q) → Ends (λ _. q) q r → phase r.1 ≡ some q
    phase_at_end (ok a, now) q h = h
    phase_at_end (err e, now) q h = h
    phase_at_end (panic, now) q h = cc
    phase_at_end (stuck, now) q h = cc

-- What a result is, if there is one.
module _ {o : Outside} (w : World o) where
  pub record Gives {A : Type 0} (a : A) (m : Session o A) : Type 0 where
    pub at : (past : Trace o) (b : A) → (m w past).0 ≡ ok b → b ≡ a

  pub Gives-ok : {A : Type 0} (a : A) → Gives a (lift (ok a))
  unfolding lift
  Gives-ok a = record { at = λ past b h. sym (ok-injective h) }

  Gives-continue_with :
      {A B : Type 0} (b : B) (r : Result A × Trace o) (f : A → Session o B)
      → ((a : A) → Gives b (f a))
      → (b' : B) → (continue_with r f w).0 ≡ ok b'
      → b' ≡ b
  Gives-continue_with b (ok a, now) f hf b' h = (hf a).at now b' h
  Gives-continue_with b (err e, now) f hf b' h = cc
  Gives-continue_with b (panic, now) f hf b' h = cc
  Gives-continue_with b (stuck, now) f hf b' h = cc

  pub Gives-bind :
      {A B : Type 0} {b : B} (m : Session o A) (f : A → Session o B)
      → ((a : A) → Gives b (f a))
      → Gives b (m >>= f)
  unfolding ◌>>=◌
  Gives-bind {b = b} m f hf = record {
    at = λ past b' h. Gives-continue_with b (m w past) f hf b' h;
  }

module _ {o : Outside} {Q : Type 0} {next : (c : o.Call) → Reply (o.Answer c) → Q → Option Q}
    {first : Q} {w : World o} where
  pub Moves-bind :
      {A B : Type 0} {before failed : Q} {after : A → Q} {end : B → Q} {m : Session o A}
      {f : A → Session o B}
      → Moves next first w before after failed m
      → ((a : A) → Moves next first w (after a) end failed (f a))
      → Moves next first w before end failed (m >>= f)
  unfolding ◌>>=◌
  Moves-bind {m = m} {f = f} hm hf = record {
    at = λ past h. Ends-continue_with next first w (m w past) f (hm.at past h) hf;
  }

  pub Moves-ok :
      {A : Type 0} {failed : Q} {after : A → Q} (a : A)
      → Moves next first w (after a) after failed (lift (ok a))
  unfolding lift
  Moves-ok a = record { at = λ past h. h }

  -- A call whose reply is ignored.
  pub Moves-tell :
      {before after failed : Q} (c : o.Call)
      → ((r : Reply (o.Answer c)) → next c r before ≡ some after)
      → Moves next first w before (λ _. after) failed (tell c)
  unfolding tell
  Moves-tell c allowed = record { at = λ past h. rw h (allowed (w past c)) }

  -- A call that leads on where it succeeds.
  pub Moves-ask :
      {before after failed : Q} (c : o.Call)
      → ((a : o.Answer c) → next c (yes a) before ≡ some after)
      → ((e : Error) → next c (no e) before ≡ some failed)
      → Moves next first w before (λ _. after) failed (ask c)
  unfolding ask
  Moves-ask {before = before} {after = after} {failed = failed} c on_yes on_no = record {
    at = λ past h. replied past h (w past c);
  }
    where
      replied :
          (past : Trace o)
          → phase next first past ≡ some before
          → (r : Reply (o.Answer c))
          → Ends next first (λ _. after) failed (to_result r, record { call = c; reply = r } ∷ past)
      replied past h (yes a) = rw h (on_yes a)
      replied past h (no e) = rw h (on_no e)

  pub Moves-or_first :
      {A : Type 0} {before between failed : Q} {after : A → Q} (c : o.Call) {m : Session o A}
      → ((reply : Reply (o.Answer c)) → next c reply between ≡ some failed)
      → Moves next first w before after between m
      → Moves next first w before after failed (or_first c m)
  unfolding or_first
  Moves-or_first {between = between} {failed = failed} {after = after} c {m = m} allowed hm =
      record {
        at = λ past h.
            Ends-clean_up next first w after between failed c (m w past) allowed (hm.at past h);
      }

  -- What follows a known result.
  pub Moves-given :
      {A B : Type 0} {before q failed : Q} {end : B → Q} {m : Session o A} (a : A)
      (f : A → Session o B)
      → Moves next first w before (λ _. q) failed m
      → Gives w a m
      → Moves next first w q end failed (f a)
      → Moves next first w before end failed (m >>= f)
  unfolding ◌>>=◌
  Moves-given {m = m} a f hm given hf = record {
    at = λ past h.
        Ends-continue_given next first w a (m w past) f (hm.at past h) (λ a' e. given.at past a' e)
          hf;
  }

  -- A deferred call, whose reply is ignored, comes behind a result and behind an error.
  pub Moves-deferred :
      {A : Type 0} {before done closed failed given_up : Q} (c : o.Call) {m : Session o A}
      → Moves next first w before (λ _. done) failed m
      → ((r : Reply (o.Answer c)) → next c r done ≡ some closed)
      → ((r : Reply (o.Answer c)) → next c r failed ≡ some given_up)
      → Moves next first w before (λ _. closed) given_up (deferred c m)
  unfolding deferred
  Moves-deferred {done = done} {closed = closed} {failed = failed} {given_up = given_up} c {m = m}
        hm on_ok on_err =
      record {
        at = λ past h.
            Ends-deferred next first w done closed failed given_up c (m w past) on_ok on_err
              (hm.at past h);
      }

  -- A test, whose outcome the phase shows.
  pub Moves-check :
      {passed failed : Q} (b : Bool) (e : Error)
      → Moves next first w (if b then passed else failed) (λ _. passed) failed (lift (check b e))
  unfolding lift
  Moves-check true e = record { at = λ past h. h }
  Moves-check false e = record { at = λ past h. h }
