-- ===== src/Prelude/Table.antt =====
-- A table of a relational database as a list of rows with a numeric primary key.
use Prim.Native.Nat.{ℕ}
use mathlib.Core.Path.{◌≡◌, refl}
use mathlib.Core.Bool.{Bool, false, ◌&&◌}
use mathlib.Core.List.{List, [], ◌∷◌}
use mathlib.Core.Option.{Option, none, some}
use native.Mathlib.Omega.{arith}
use event_driven_notificatio.Prelude.Tests.{◌==◌, if◌then◌else◌}

module _ {ℓ} {A : Type ℓ} (key : A → ℕ) where
  -- SELECT * FROM t WHERE id = i
  unfoldable pub find_row : ℕ → List A → Option A
  find_row i [] = none
  find_row i (r ∷ rs) = if key r == i then some r else find_row i rs

  -- UPDATE t SET f WHERE id = i AND p
  unfoldable pub update_row : ℕ → (A → Bool) → (A → A) → List A → List A
  update_row i p f [] = []
  update_row i p f (r ∷ rs) = (if (key r == i) && p r then f r else r) ∷ update_row i p f rs

  -- DELETE FROM t WHERE id = i
  unfoldable pub delete_row : ℕ → List A → List A
  delete_row i [] = []
  delete_row i (r ∷ rs) = if key r == i then delete_row i rs else r ∷ delete_row i rs

-- UPDATE t SET f WHERE p
module _ {ℓ} {A : Type ℓ} where
  unfoldable pub update_where : (A → Bool) → (A → A) → List A → List A
  update_where p f [] = []
  update_where p f (r ∷ rs) = (if p r then f r else r) ∷ update_where p f rs

-- What an update leaves of a row that it may have changed.
abbrev pub touched {ℓ} : {A : Type ℓ} → (A → Bool) → (A → A) → Option A → Option A
touched p f none = none
touched p f (some r) = some (if p r then f r else r)

module _ {ℓ} {A : Type ℓ} (key : A → ℕ) where
  pub find_row-update_row_self :
      (i : ℕ) (p : A → Bool) (f : A → A) (rs : List A)
      → ((r : A) → key (f r) ≡ key r)
      → find_row key i (update_row key i p f rs) ≡ touched p f (find_row key i rs)
  unfolding find_row update_row
  find_row-update_row_self i p f [] h = refl
  find_row-update_row_self i p f (r ∷ rs) h =
      ground (arith, h r, find_row-update_row_self i p f rs h)

  pub find_row-update_row_ne :
      (i j : ℕ) (p : A → Bool) (f : A → A) (rs : List A)
      → ((r : A) → key (f r) ≡ key r)
      → (i == j) ≡ false
      → find_row key j (update_row key i p f rs) ≡ find_row key j rs
  unfolding find_row update_row
  find_row-update_row_ne i j p f [] h n = refl
  find_row-update_row_ne i j p f (r ∷ rs) h n =
      ground (arith, h r, find_row-update_row_ne i j p f rs h n)

  pub find_row-update_where :
      (i : ℕ) (p : A → Bool) (f : A → A) (rs : List A)
      → ((r : A) → key (f r) ≡ key r)
      → find_row key i (update_where p f rs) ≡ touched p f (find_row key i rs)
  unfolding find_row update_where
  find_row-update_where i p f [] h = refl
  find_row-update_where i p f (r ∷ rs) h = ground (arith, h r, find_row-update_where i p f rs h)
