-- ===== src/Base/Run.antt =====
-- Code that can fault (a read through NULL) or fail to end within its fuel.

pub data Run {ℓ} (A : Type ℓ) : Type ℓ where
  ok : A → Run A
  fault : Run A
  out_of_fuel : Run A

infixl 5 ◌>>=◌
abbrev pub ◌>>=◌ {ℓ κ} : {A : Type ℓ} {B : Type κ} → Run A → (A → Run B) → Run B
ok a >>= k = k a
fault >>= k = fault
out_of_fuel >>= k = out_of_fuel

-- The run returns, and its value satisfies `P`.
pub data Returns {ℓ κ} {A : Type ℓ} (P : A → Type κ) : Run A → Type (ℓ ⊔ κ) where
  returns : {a : A} → P a → Returns P (ok a)

module _ {ℓ κ} {A : Type ℓ} {P : A → Type κ} where
  pub Returns-weaken {μ} :
      {Q : A → Type μ} {r : Run A} → Returns P r → ((a : A) → P a → Q a) → Returns Q r
  Returns-weaken (returns p) f = returns (f _ p)

  pub Returns-bind {μ ν} :
      {B : Type μ} {Q : B → Type ν} {r : Run A} {k : A → Run B}
      → Returns P r
      → ((a : A) → P a → Returns Q (k a))
      → Returns Q (r >>= k)
  Returns-bind (returns p) next = next _ p

-- The run does not lack fuel: it faults, or returns a value that satisfies `P`.
pub data Settles {ℓ κ} {A : Type ℓ} (P : A → Type κ) : Run A → Type (ℓ ⊔ κ) where
  settled : {a : A} → P a → Settles P (ok a)
  faulted : Settles P fault

pub Settles-bind {ℓ κ μ ν} :
    {A : Type ℓ} {P : A → Type κ} {B : Type μ} {Q : B → Type ν} {r : Run A} {k : A → Run B}
    → Settles P r
    → ((a : A) → P a → Settles Q (k a))
    → Settles Q (r >>= k)
Settles-bind (settled p) next = next _ p
Settles-bind faulted next = faulted

pub Settles-weaken {ℓ κ μ} :
    {A : Type ℓ} {P : A → Type κ} {Q : A → Type μ} {r : Run A}
    → Settles P r
    → ((a : A) → P a → Settles Q (ok a))
    → Settles Q r
Settles-weaken (settled p) next = next _ p
Settles-weaken faulted next = faulted

pub Returns-Settles {ℓ κ} : {A : Type ℓ} {P : A → Type κ} {r : Run A} → Returns P r → Settles P r
Returns-Settles (returns p) = settled p
