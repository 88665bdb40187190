-- ===== src/Prelude/Fault.antt =====
-- Code that may touch memory outside its arrays: `none` is that fault.
use mathlib.Core.Path.{◌≡◌, refl, subst}
use mathlib.Core.Option.{Option, none, some}
use mathlib.Core.List.{List, [], ◌∷◌}
use Prim.Native.Nat.{ℕ, zero, suc, ◌<◌}
use native.Mathlib.Omega.{arith}
use xbt_os_misaka.Prelude.Tests.{ltb, if◌then◌else◌}
use xbt_os_misaka.Prelude.Lists.{All, All-set, length, set, get_or}
use mathlib.Core.Bool.{Bool, true, false}

-- A result that is there unless the code faulted.
abbrev pub Run {ℓ} : Type ℓ → Type ℓ
Run A = Option A

infixl 5 ◌>>=◌
abbrev pub ◌>>=◌ {ℓ κ} : {A : Type ℓ} {B : Type κ} → Run A → (A → Run B) → Run B
some a >>= f = f a
none >>= f = none

-- `array[i] = v`
unfoldable pub store {ℓ} : {A : Type ℓ} → List A → ℕ → A → Run (List A)
store xs i v = if ltb i (length xs) then some (set xs i v) else none

pub store-eq_some {ℓ} :
    {A : Type ℓ} (xs : List A) (i : ℕ) (v : A) → i < length xs → store xs i v ≡ some (set xs i v)
unfolding store
store-eq_some xs i v h = ground arith

-- `array[i]`, read
unfoldable pub load {ℓ} : {A : Type ℓ} → List A → ℕ → Run A
load [] i = none
load (x ∷ xs) zero = some x
load (x ∷ xs) (suc i) = load xs i

pub load-eq_some {ℓ} :
    {A : Type ℓ} (xs : List A) (i : ℕ) (d : A) → i < length xs → load xs i ≡ some (get_or xs i d)
unfolding load
load-eq_some [] i d h = absurd (omega arith)
load-eq_some (x ∷ xs) zero d h = refl
load-eq_some (x ∷ xs) (suc i) d h = load-eq_some xs i d (omega arith)

-- What is so of the result whenever there is one.
abbrev pub Whenever {ℓ κ} : {A : Type ℓ} → (A → Type κ) → Run A → Type κ
Whenever P none = Unit
Whenever P (some a) = P a

pub Whenever-bind {ℓ ℓ' κ κ'} :
    {A : Type ℓ} {B : Type ℓ'} (P : A → Type κ) (Q : B → Type κ') (run : Run A) (f : A → Run B)
    → Whenever P run
    → ((a : A) → P a → Whenever Q (f a))
    → Whenever Q (run >>= f)
Whenever-bind P Q none f p rest = tt
Whenever-bind P Q (some a) f p rest = rest a p

-- The first result may be any.
pub Whenever-then {ℓ ℓ' κ} :
    {A : Type ℓ} {B : Type ℓ'} (Q : B → Type κ) (run : Run A) (f : A → Run B)
    → ((a : A) → Whenever Q (f a))
    → Whenever Q (run >>= f)
Whenever-then Q none f rest = tt
Whenever-then Q (some a) f rest = rest a

pub Whenever-if {ℓ κ} :
    {A : Type ℓ} (P : A → Type κ) (b : Bool) (x y : Run A)
    → Whenever P x
    → Whenever P y
    → Whenever P (if b then x else y)
Whenever-if P true x y p q = p
Whenever-if P false x y p q = q

pub All-store {ℓ κ} :
    {A : Type ℓ} (P : A → Type κ) (xs : List A) (i : ℕ) (v : A)
    → All P xs
    → P v
    → Whenever (All P) (store xs i v)
unfolding store
All-store P xs i v all new =
    Whenever-if (All P) (ltb i (length xs)) (some (set xs i v)) none (All-set P xs i v all new) tt

-- What holds whenever a run returns holds of what it returned.
pub Whenever-some {ℓ κ} :
    {A : Type ℓ} (P : A → Type κ) (run : Run A) (a : A) → run ≡ some a → Whenever P run → P a
Whenever-some P run a ran p = subst (Whenever P) ran p
