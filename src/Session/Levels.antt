-- ===== src/Session/Levels.antt =====
-- How many processes run before some code, and how many after it.
use xns.Common.{ℕ, ◌+◌, ◌≡◌, ◌∷◌, Result, ok, err, panic, stuck, arith}
use xns.Session.{
  Outside, Reply, yes, no, Event, Trace, World, Session, to_result, ask, tell, lift, continue_with,
  ◌>>=◌, clean_up, or_first,
}
use xns.Session.Balance.{total, IsNeutral, IsStart, IsStop}

module _ {o : Outside} (starts stops : Event o → ℕ) where
  -- `n` more were started than stopped.
  abbrev pub Running : ℕ → Trace o → Type 0
  Running n past = total starts stops starts past ≡ total starts stops stops past + n

  -- `n` run after a result, and `e` after an error; a panic ends the program.
  abbrev pub Left : {A : Type 0} → ℕ → ℕ → Result A × Trace o → Type 0
  Left n e (ok a, now) = Running n now
  Left n e (err x, now) = Running e now
  Left n e _ = Unit {0}

  pub record Leaves {A : Type 0} (before after on_error : ℕ) (m : Session o A) : Type 0 where
    pub at : (w : World o) (past : Trace o) → Running before past → Left after on_error (m w past)

  Left-continue_with :
      {A B : Type 0} (n k e : ℕ) (r : Result A × Trace o) (f : A → Session o B) (w : World o)
      → Left n e r
      → ((a : A) → Leaves n k e (f a))
      → Left k e (continue_with r f w)
  Left-continue_with n k e (ok a, now) f w h hf = (hf a).at w now h
  Left-continue_with n k e (err x, now) f w h hf = h
  Left-continue_with n k e (panic, now) f w h hf = tt
  Left-continue_with n k e (stuck, now) f w h hf = tt

  pub Leaves-bind :
      {A B : Type 0} {b n k e : ℕ} (m : Session o A) (f : A → Session o B)
      → Leaves b n e m
      → ((a : A) → Leaves n k e (f a))
      → Leaves b k e (m >>= f)
  unfolding ◌>>=◌
  Leaves-bind {n = n} {k = k} {e = e} m f hm hf = record {
    at = λ w past h. Left-continue_with n k e (m w past) f w (hm.at w past h) hf;
  }

  Left-result :
      {A : Type 0} (n : ℕ) (past : Trace o) (r : Result A) → Running n past → Left n n (r, past)
  Left-result n past (ok a) h = h
  Left-result n past (err e) h = h
  Left-result n past panic h = tt
  Left-result n past stuck h = tt

  pub Leaves-lift : {A : Type 0} (n : ℕ) (r : Result A) → Leaves n n n (lift {A = A} r)
  unfolding lift
  Leaves-lift n r = record { at = λ w past h. Left-result n past r h }

  pub Leaves-ask : (n : ℕ) (c : o.Call) → IsNeutral starts stops c → Leaves n n n (ask c)
  unfolding ask
  Leaves-ask n c hc = record {
    at = λ w past h.
        Left-result n (record { call = c; reply = w past c } ∷ past) (to_result (w past c))
          (omega (arith, hc (w past c)));
  }

  pub Leaves-tell : (n : ℕ) (c : o.Call) → IsNeutral starts stops c → Leaves n n n (tell c)
  unfolding tell
  Leaves-tell n c hc = record { at = λ w past h. omega (arith, hc (w past c)) }

  pub Leaves-start : (n : ℕ) (c : o.Call) → IsStart starts stops c → Leaves n (n + 1) n (ask c)
  unfolding ask
  Leaves-start n c hc = record { at = λ w past h. begin past h (w past c) }
    where
      begin :
          (past : Trace o)
          → Running n past
          → (r : Reply (o.Answer c))
          → Left (n + 1) n (to_result r, record { call = c; reply = r } ∷ past)
      begin past h (yes a) = omega (arith, hc.started a, hc.no_stop (yes a))
      begin past h (no e) = omega (arith, hc.failed e, hc.no_stop (no e))

  pub Leaves-stop : (n e : ℕ) (c : o.Call) → IsStop starts stops c → Leaves (n + 1) n e (tell c)
  unfolding tell
  Leaves-stop n e c hc = record {
    at = λ w past h. omega (arith, hc.stopped (w past c), hc.no_start (w past c));
  }

  Left-clean_up :
      {A : Type 0} (n e : ℕ) (c : o.Call) (w : World o) (r : Result A × Trace o)
      → IsStop starts stops c
      → Left n (e + 1) r
      → Left n e (clean_up c w r)
  Left-clean_up n e c w (ok a, now) hc h = h
  Left-clean_up n e c w (err x, now) hc h =
      omega (arith, hc.stopped (w now c), hc.no_start (w now c))
  Left-clean_up n e c w (panic, now) hc h = tt
  Left-clean_up n e c w (stuck, now) hc h = tt

  pub Leaves-or_first :
      {A : Type 0} {b : ℕ} (n e : ℕ) (c : o.Call) (m : Session o A)
      → IsStop starts stops c
      → Leaves b n (e + 1) m
      → Leaves b n e (or_first c m)
  unfolding or_first
  Leaves-or_first n e c m hc hm = record {
    at = λ w past h. Left-clean_up n e c w (m w past) hc (hm.at w past h);
  }
