-- ===== src/Handler/Exec.antt =====
-- The handler's methods: state and errors. What was written before an error stays written.
use e_bill.Prelude.{Bool, true, false, Result, ok, err, panic}
use e_bill.Handler.Store.{Store}

-- crates/bcr-ebill-transport/src/lib.rs, without the texts
pub data Error : Type 0 where
  network message persistence blockchain crypto : Error

abbrev pub Exec : Type 0 → Type 0
Exec A = Store → Result Error A × Store

module _ {A : Type 0} where
  abbrev pub pure : A → Exec A
  pure a st = (ok a, st)

  abbrev pub raise : Error → Exec A
  raise e st = (err e, st)

  -- A pure result, with its error mapped by `map_err(|_| e)`.
  abbrev pub lift : {E : Type 0} → Result E A → Error → Exec A
  lift (ok a) e st = (ok a, st)
  lift (err _) e st = (err e, st)
  lift panic e st = (panic, st)

  abbrev pub relabel : {E : Type 0} → Error → Result E A → Result Error A
  relabel e (ok a) = ok a
  relabel e (err _) = err e
  relabel e panic = panic

  abbrev pub lift_state : {E : Type 0} → (Store → Result E A × Store) → Error → Exec A
  lift_state m e st = let (r, st') = m st in (relabel e r, st')

  abbrev pub gets : (Store → A) → Exec A
  gets f st = (ok (f st), st)

module _ {A B : Type 0} where
  abbrev pub continue : Result Error A → (A → Exec B) → Store → Result Error B × Store
  continue (ok a) f st = f a st
  continue (err e) f st = (err e, st)
  continue panic f st = (panic, st)

  infixl 5 ◌>>=◌
  abbrev pub ◌>>=◌ : Exec A → (A → Exec B) → Exec B
  ◌>>=◌ m f st = let (r, st') = m st in continue r f st'

  infixl 5 ◌>>◌
  abbrev pub ◌>>◌ : Exec A → Exec B → Exec B
  m >> k = m >>= λ _. k

abbrev pub when : Bool → Exec Unit → Exec Unit
when true m = m
when false m = pure tt
