-- ===== src/Session/Balance.antt =====
-- What a session starts, it stops.
use xns.Common.{ℕ, ◌+◌, ◌≡◌, [], ◌∷◌, Error, Result, ok, err, panic, stuck, true, false, arith}
use xns.Session.{
  Outside, Reply, yes, no, Event, Trace, World, Session, to_result, ask, tell, lift, continue_with,
  ◌>>=◌, ◌>>◌, deferred, clean_up, or_first,
}

-- For one event, the processes that it starts and those that it stops.
module _ {o : Outside} (starts stops : Event o → ℕ) where
  abbrev pub total : (Event o → ℕ) → Trace o → ℕ
  total f [] = 0
  total f (e ∷ t) = f e + total f t

  -- From one trace to a later one, with `k` stops and `l` starts more than in balance.
  abbrev pub Differs : ℕ → ℕ → Trace o → Trace o → Type 0
  Differs k l past now =
      total starts now + total stops past + k ≡ total stops now + total starts past + l

  -- As many stopped as started, whatever happens.
  pub record IsBalanced {A : Type 0} (m : Session o A) : Type 0 where
    pub at : (w : World o) (past : Trace o) → Differs 0 0 past (m w past).1

  IsBalanced-continue_with :
      {A B : Type 0} (r : Result A × Trace o) (f : A → Session o B) (w : World o) (past : Trace o)
      → Differs 0 0 past r.1
      → ((a : A) → IsBalanced (f a))
      → Differs 0 0 past (continue_with r f w).1
  IsBalanced-continue_with (ok a, now) f w past h hf = omega (arith, (hf a).at w now)
  IsBalanced-continue_with (err e, now) f w past h hf = h
  IsBalanced-continue_with (panic, now) f w past h hf = h
  IsBalanced-continue_with (stuck, now) f w past h hf = h

  pub IsBalanced-bind :
      {A B : Type 0} (m : Session o A) (f : A → Session o B)
      → IsBalanced m
      → ((a : A) → IsBalanced (f a))
      → IsBalanced (m >>= f)
  unfolding ◌>>=◌
  IsBalanced-bind m f hm hf = record {
    at = λ w past. IsBalanced-continue_with (m w past) f w past (hm.at w past) hf;
  }

  pub IsBalanced-lift : {A : Type 0} (r : Result A) → IsBalanced (lift {A = A} r)
  unfolding lift
  IsBalanced-lift r = record { at = λ w past. omega arith }

  -- A call that starts and stops nothing.
  pub IsBalanced-ask :
      (c : o.Call)
      → ((r : Reply (o.Answer c))
          → (starts (record { call = c; reply = r }) ≡ 0)
            × (stops (record { call = c; reply = r }) ≡ 0))
      → IsBalanced (ask c)
  unfolding ask
  IsBalanced-ask c h = record { at = λ w past. omega (arith, h (w past c)) }

  pub IsBalanced-tell :
      (c : o.Call)
      → ((r : Reply (o.Answer c))
          → (starts (record { call = c; reply = r }) ≡ 0)
            × (stops (record { call = c; reply = r }) ≡ 0))
      → IsBalanced (tell c)
  unfolding tell
  IsBalanced-tell c h = record { at = λ w past. omega (arith, h (w past c)) }

  abbrev pub IsNeutral : o.Call → Type 0
  IsNeutral c =
      (r : Reply (o.Answer c))
      → (starts (record { call = c; reply = r }) ≡ 0) × (stops (record { call = c; reply = r }) ≡ 0)

  -- A call that starts a process where it does not fail, and one that stops it in any case.
  pub record IsStart (c : o.Call) : Type 0 where
    pub started : (a : o.Answer c) → starts (record { call = c; reply = yes a }) ≡ 1
    pub failed : (e : Error) → starts (record { call = c; reply = no e }) ≡ 0
    pub no_stop : (r : Reply (o.Answer c)) → stops (record { call = c; reply = r }) ≡ 0

  pub record IsStop (c : o.Call) : Type 0 where
    pub stopped : (r : Reply (o.Answer c)) → stops (record { call = c; reply = r }) ≡ 1
    pub no_start : (r : Reply (o.Answer c)) → starts (record { call = c; reply = r }) ≡ 0

  -- A process that is stopped by a deferred call.
  pub IsBalanced-bracket :
      {A : Type 0} (s p : o.Call) (m : Session o A)
      → IsStart s
      → IsStop p
      → IsBalanced m
      → IsBalanced (ask s >> deferred p m)
  unfolding ask deferred ◌>>=◌
  IsBalanced-bracket s p m hs hp hm = record { at = λ w past. begin w past (w past s) }
    where
      begin :
          (w : World o) (past : Trace o) (r : Reply (o.Answer s))
          → Differs 0 0 past
              (continue_with
                (to_result r, record { call = s; reply = r } ∷ past)
                (λ _. deferred p m)
                w).1
      begin w past (yes a) =
          let now = record { call = s; reply = yes a } ∷ past in
          omega (
            arith,
            hs.started a,
            hs.no_stop (yes a),
            hm.at w now,
            hp.stopped (w (m w now).1 p),
            hp.no_start (w (m w now).1 p),
          )
      begin w past (no e) = omega (arith, hs.failed e, hs.no_stop (no e))

  pub IsBalanced-deferred :
      {A : Type 0} (c : o.Call) (m : Session o A)
      → IsNeutral c
      → IsBalanced m
      → IsBalanced (deferred c m)
  unfolding deferred
  IsBalanced-deferred c m hc hm = record {
    at = λ w past. omega (arith, hm.at w past, hc (w (m w past).1 c));
  }

  -- An error has stopped the one process that runs; there is no panic.
  abbrev pub HasStopped : {A : Type 0} → Trace o → Result A × Trace o → Type 0
  HasStopped past (ok a, now) = Differs 0 0 past now
  HasStopped past (err e, now) = Differs 1 0 past now
  HasStopped past (panic, now) = true ≡ false
  HasStopped past (stuck, now) = true ≡ false

  pub record StopsOnError {A : Type 0} (m : Session o A) : Type 0 where
    pub at : (w : World o) (past : Trace o) → HasStopped past (m w past)

  abbrev pub IsReturned : {A : Type 0} → Result A → Type 0
  IsReturned (ok a) = Unit {0}
  IsReturned (err e) = Unit {0}
  IsReturned panic = true ≡ false
  IsReturned stuck = true ≡ false

  pub record Returns {A : Type 0} (m : Session o A) : Type 0 where
    pub at : (w : World o) (past : Trace o) → IsReturned (m w past).0

  HasStopped-clean_up :
      {A : Type 0} (p : o.Call) (w : World o) (past : Trace o) (r : Result A × Trace o)
      → IsStop p
      → Differs 0 0 past r.1
      → IsReturned r.0
      → HasStopped past (clean_up p w r)
  HasStopped-clean_up p w past (ok a, now) hp h k = h
  HasStopped-clean_up p w past (err e, now) hp h k =
      omega (arith, hp.stopped (w now p), hp.no_start (w now p))
  HasStopped-clean_up p w past (panic, now) hp h k = k
  HasStopped-clean_up p w past (stuck, now) hp h k = k

  pub StopsOnError-or_first :
      {A : Type 0} (p : o.Call) (m : Session o A)
      → IsStop p
      → IsBalanced m
      → Returns m
      → StopsOnError (or_first p m)
  unfolding or_first
  StopsOnError-or_first p m hp hm hr = record {
    at = λ w past. HasStopped-clean_up p w past (m w past) hp (hm.at w past) (hr.at w past);
  }

  HasStopped-continue_with :
      {A B : Type 0} (r : Result A × Trace o) (f : A → Session o B) (w : World o) (past : Trace o)
      → HasStopped past r
      → ((a : A) → StopsOnError (f a))
      → HasStopped past (continue_with r f w)
  HasStopped-continue_with {B = B} (ok a, now) f w past h hf = later (f a w now) ((hf a).at w now)
    where
      later : (s : Result B × Trace o) → HasStopped now s → HasStopped past s
      later (ok b, end) k = omega arith
      later (err e, end) k = omega arith
      later (panic, end) k = k
      later (stuck, end) k = k
  HasStopped-continue_with (err e, now) f w past h hf = h
  HasStopped-continue_with (panic, now) f w past h hf = h
  HasStopped-continue_with (stuck, now) f w past h hf = h

  pub StopsOnError-bind :
      {A B : Type 0} (m : Session o A) (f : A → Session o B)
      → StopsOnError m
      → ((a : A) → StopsOnError (f a))
      → StopsOnError (m >>= f)
  unfolding ◌>>=◌
  StopsOnError-bind m f hm hf = record {
    at = λ w past. HasStopped-continue_with (m w past) f w past (hm.at w past) hf;
  }

  -- A process that runs until an error, or until it is stopped behind the code.
  pub IsBalanced-running :
      {A : Type 0} (s p : o.Call) (m : Session o A)
      → IsStart s
      → IsStop p
      → StopsOnError m
      → IsBalanced (ask s >> (m >> tell p))
  unfolding ask tell ◌>>=◌
  IsBalanced-running {A = A} s p m hs hp hm = record { at = λ w past. begin w past (w past s) }
    where
      ends :
          (w : World o) (now : Trace o) (r : Result A × Trace o)
          → HasStopped now r
          → Differs 1 0 now (continue_with r (λ _. tell p) w).1
      ends w now (ok a, end) h = omega (arith, hp.stopped (w end p), hp.no_start (w end p))
      ends w now (err e, end) h = omega arith
      ends w now (panic, end) h = cc
      ends w now (stuck, end) h = cc

      begin :
          (w : World o) (past : Trace o) (r : Reply (o.Answer s))
          → Differs 0 0 past
              (continue_with
                (to_result r, record { call = s; reply = r } ∷ past)
                (λ _. m >> tell p)
                w).1
      begin w past (yes a) =
          let now = record { call = s; reply = yes a } ∷ past in
          omega (arith, hs.started a, hs.no_stop (yes a), ends w now (m w now) (hm.at w now))
      begin w past (no e) = omega (arith, hs.failed e, hs.no_stop (no e))

  IsBalanced-clean_up :
      {A : Type 0} (c : o.Call) (w : World o) (past : Trace o) (r : Result A × Trace o)
      → IsNeutral c
      → Differs 0 0 past r.1
      → Differs 0 0 past (clean_up c w r).1
  IsBalanced-clean_up c w past (ok a, now) hc h = h
  IsBalanced-clean_up c w past (err e, now) hc h = omega (arith, hc (w now c))
  IsBalanced-clean_up c w past (panic, now) hc h = h
  IsBalanced-clean_up c w past (stuck, now) hc h = h

  pub IsBalanced-or_first :
      {A : Type 0} (c : o.Call) (m : Session o A)
      → IsNeutral c
      → IsBalanced m
      → IsBalanced (or_first c m)
  unfolding or_first
  IsBalanced-or_first c m hc hm = record {
    at = λ w past. IsBalanced-clean_up c w past (m w past) hc (hm.at w past);
  }

  Returns-continue_with :
      {A B : Type 0} (r : Result A × Trace o) (f : A → Session o B) (w : World o)
      → IsReturned r.0
      → ((a : A) → Returns (f a))
      → IsReturned (continue_with r f w).0
  Returns-continue_with (ok a, now) f w h hf = (hf a).at w now
  Returns-continue_with (err e, now) f w h hf = tt
  Returns-continue_with (panic, now) f w h hf = h
  Returns-continue_with (stuck, now) f w h hf = h

  pub Returns-bind :
      {A B : Type 0} (m : Session o A) (f : A → Session o B)
      → Returns m
      → ((a : A) → Returns (f a))
      → Returns (m >>= f)
  unfolding ◌>>=◌
  Returns-bind m f hm hf = record {
    at = λ w past. Returns-continue_with (m w past) f w (hm.at w past) hf;
  }

  IsReturned-to_result : {A : Type 0} (r : Reply A) → IsReturned (to_result r)
  IsReturned-to_result (yes a) = tt
  IsReturned-to_result (no e) = tt

  pub Returns-ask : (c : o.Call) → Returns (ask c)
  unfolding ask
  Returns-ask c = record { at = λ w past. IsReturned-to_result (w past c) }
