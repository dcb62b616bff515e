-- ===== src/Fetch/Main/Outcomes.antt =====
-- What holds of the outcome of a fetch, if it returns.
use spiderfire.Fetch.Redirecting.{Outcome, done, panics, out_of_fuel, ◌>>=◌, or_panics}
use spiderfire.Prelude.{◌≡◌, refl, Bool, true, false, Option, none, some, if◌then◌else◌}

-- What an outcome that has fuel enough satisfies: it is a panic, or a value with the property.
unfoldable pub Ends {ℓ} : {A : Type ℓ} → (A → Type 0) → Outcome A → Type 0
Ends P (done a) = P a
Ends P panics = Unit
Ends P out_of_fuel = ⊥

pub bind-Ends {ℓ κ} :
    {A : Type ℓ} {B : Type κ} (P : A → Type 0) (Q : B → Type 0) (m : Outcome A) (f : A → Outcome B)
    → Ends P m
    → ((a : A) → P a → Ends Q (f a))
    → Ends Q (m >>= f)
unfolding Ends
bind-Ends P Q (done a) f p k = k a p
bind-Ends P Q panics f p k = tt
bind-Ends P Q out_of_fuel f p k = p

pub or_panics-Ends {ℓ} : {A : Type ℓ} (o : Option A) → Ends (λ a. Unit) (or_panics o)
unfolding Ends
or_panics-Ends none = tt
or_panics-Ends (some a) = tt

pub if-Ends {ℓ} :
    {A : Type ℓ} (P : A → Type 0) (b : Bool) (m n : Outcome A)
    → Ends P m
    → (b ≡ false → Ends P n)
    → Ends P (if b then m else n)
if-Ends P true m n p q = p
if-Ends P false m n p q = q refl
