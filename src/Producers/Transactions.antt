-- ===== src/Producers/Transactions.antt =====
-- Reasoning about chains of steps that may fail.
use event_driven_notificatio.Prelude.{
  ◌≡◌, refl, ◌⊎◌, inl, inr, Bool, true, false, Option, none, some,
}
use event_driven_notificatio.Store.{Db}
use event_driven_notificatio.Store.Lifecycle.{Follows, Follows-refl}
use event_driven_notificatio.Producers.{step, committed, ◌>>=◌}

-- What holds of the database of a transaction that gets to its end.
abbrev pub Holds : (Db → Type 0) → Option Db → Type 0
Holds P none = Unit
Holds P (some db) = P db

-- The transaction gets to its end.
abbrev pub Gets : Option Db → Type 0
Gets none = ⊥
Gets (some db) = Unit

pub bind-Gets :
    (o : Option Db) (f : Db → Option Db) → Gets o → ((db : Db) → Gets (f db)) → Gets (o >>= f)
bind-Gets none f g h = elim g [ ]
bind-Gets (some db) f g h = h db

pub step-Gets : (fails : Bool) (db : Db) → fails ≡ false → Gets (step fails db)
step-Gets true db e = cc
step-Gets false db e = tt

module _ (P : Db → Type 0) where
  pub step_then :
      {A : Type 0}
      → (fails : Bool) (a : A) (f : A → Option Db) → Holds P (f a)
      → Holds P (step fails a >>= f)
  step_then true a f h = tt
  step_then false a f h = h

  pub step_last : (fails : Bool) (db : Db) → P db → Holds P (step fails db)
  step_last true db h = tt
  step_last false db h = h

  pub completed : (o : Option Db) (db : Db) → Gets o → Holds P o → P (committed o db)
  completed none db g h = elim g [ ]
  completed (some db') db g h = h

  pub all_or_nothing :
      (o : Option Db) (db : Db) → Holds P o → (committed o db ≡ db) ⊎ P (committed o db)
  all_or_nothing none db h = inl refl
  all_or_nothing (some db') db h = inr h

pub bind-Holds :
    (P Q : Db → Type 0) (o : Option Db) (f : Db → Option Db)
    → Holds P o
    → ((db : Db) → P db → Holds Q (f db))
    → Holds Q (o >>= f)
bind-Holds P Q none f h g = tt
bind-Holds P Q (some db) f h g = g db h

pub Follows-committed :
    (o : Option Db) (db : Db) → Holds (Follows db) o → Follows db (committed o db)
Follows-committed none db h = Follows-refl db
Follows-committed (some db') db h = h
