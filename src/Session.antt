-- ===== src/Session.antt =====
-- Code that calls wallets, files and processes: every call stands in a trace with its reply, and what
-- is replied may depend on all that went before.
pub mod Balance
pub mod Levels
pub mod Phases
use xns.Common.{List, [], ◌∷◌, Error, Result, ok, err, panic, stuck}

-- The calls that some code makes, and what each is answered with where it does not fail.
pub record Outside : Type 1 where
  pub Call : Type 0
  pub Answer : Call → Type 0

pub data Reply (A : Type 0) : Type 0 where
  yes : A → Reply A
  no : Error → Reply A

pub record Event (o : Outside) : Type 0 where
  pub call : o.Call
  pub reply : Reply (o.Answer call)

-- The last event stands first.
abbrev pub Trace : Outside → Type 0
Trace o = List (Event o)

abbrev pub World : Outside → Type 0
World o = Trace o → (c : o.Call) → Reply (o.Answer c)

abbrev pub Session : Outside → Type 0 → Type 0
Session o A = World o → Trace o → Result A × Trace o

abbrev pub to_result : {A : Type 0} → Reply A → Result A
to_result (yes a) = ok a
to_result (no e) = err e

module _ {o : Outside} where
  unfoldable pub ask : (c : o.Call) → Session o (o.Answer c)
  ask c w past =
      let reply = w past c in (to_result reply, record { call = c; reply = reply } ∷ past)

  -- A call without a result.
  unfoldable pub tell : o.Call → Session o (Unit {0})
  tell c w past = (ok tt, record { call = c; reply = w past c } ∷ past)

  unfoldable pub lift : {A : Type 0} → Result A → Session o A
  lift r w past = (r, past)

  -- What follows a result.
  abbrev pub continue_with :
      {A B : Type 0} → Result A × Trace o → (A → Session o B) → World o → Result B × Trace o
  continue_with (ok a, past) f w = f a w past
  continue_with (err e, past) f w = (err e, past)
  continue_with (panic, past) f w = (panic, past)
  continue_with (stuck, past) f w = (stuck, past)

  infixl 5 ◌>>=◌ ◌>>◌
  unfoldable pub ◌>>=◌ : {A B : Type 0} → Session o A → (A → Session o B) → Session o B
  ◌>>=◌ m f w past = continue_with (m w past) f w

  abbrev pub ◌>>◌ : {A B : Type 0} → Session o A → Session o B → Session o B
  m >> k = m >>= λ _. k

  -- `defer` of a call whose reply is ignored.
  unfoldable pub deferred : {A : Type 0} → o.Call → Session o A → Session o A
  deferred c m w past =
      let (r, past') = m w past in (r, record { call = c; reply = w past' c } ∷ past')

  -- What an error leads to before it is returned.
  abbrev pub clean_up : {A : Type 0} → o.Call → World o → Result A × Trace o → Result A × Trace o
  clean_up c w (err e, past) = (err e, record { call = c; reply = w past c } ∷ past)
  clean_up c w (ok a, past) = (ok a, past)
  clean_up c w (panic, past) = (panic, past)
  clean_up c w (stuck, past) = (stuck, past)

  -- `if err := m; err != nil { c; return err }`
  unfoldable pub or_first : {A : Type 0} → o.Call → Session o A → Session o A
  or_first c m w past = clean_up c w (m w past)
