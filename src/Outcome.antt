-- ===== src/Outcome.antt =====
-- The results of code that may loop without end, or do what C++ leaves undefined: loops are on fuel,
-- and a null pointer that is followed, or a write behind an array, is `undefined`.
pub data Outcome {ℓ} (A : Type ℓ) : Type ℓ where
  returned : A → Outcome A
  out_of_fuel : Outcome A
  undefined : Outcome A

infixl 5 ◌>>=◌
abbrev pub ◌>>=◌ {ℓ κ} : {A : Type ℓ} {B : Type κ} → Outcome A → (A → Outcome B) → Outcome B
returned a >>= k = k a
out_of_fuel >>= k = out_of_fuel
undefined >>= k = undefined

-- The result, where there is one, satisfies `P`.
abbrev pub Holds {ℓ κ} : {A : Type ℓ} → (A → Type κ) → Outcome A → Type κ
Holds P (returned a) = P a
Holds P out_of_fuel = Unit
Holds P undefined = Unit

-- There is a result, and it satisfies `P`.
abbrev pub Returns {ℓ} : {A : Type ℓ} → (A → Type 0) → Outcome A → Type 0
Returns P (returned a) = P a
Returns P out_of_fuel = ⊥
Returns P undefined = ⊥

pub >>=-Holds {ℓ κ μ ν} :
    {A : Type ℓ} {B : Type κ} (P : A → Type μ) (Q : B → Type ν) (m : Outcome A) (k : A → Outcome B)
    → Holds P m
    → ((a : A) → P a → Holds Q (k a))
    → Holds Q (m >>= k)
>>=-Holds P Q (returned a) k h f = f a h
>>=-Holds P Q out_of_fuel k h f = tt
>>=-Holds P Q undefined k h f = tt

pub >>=-Returns {ℓ κ} :
    {A : Type ℓ} {B : Type κ} (P : A → Type 0) (Q : B → Type 0) (m : Outcome A) (k : A → Outcome B)
    → Returns P m
    → ((a : A) → P a → Returns Q (k a))
    → Returns Q (m >>= k)
>>=-Returns P Q (returned a) k h f = f a h
>>=-Returns P Q out_of_fuel k h f = absurd h
>>=-Returns P Q undefined k h f = absurd h

pub then-Holds {ℓ κ μ} :
    {A : Type ℓ} {B : Type κ} (Q : B → Type μ) (m : Outcome A) (k : A → Outcome B)
    → ((a : A) → Holds Q (k a))
    → Holds Q (m >>= k)
then-Holds Q (returned a) k f = f a
then-Holds Q out_of_fuel k f = tt
then-Holds Q undefined k f = tt

pub map-Holds {ℓ κ μ} :
    {A : Type ℓ} (P : A → Type κ) (Q : A → Type μ) (m : Outcome A)
    → ((a : A) → P a → Q a)
    → Holds P m
    → Holds Q m
map-Holds P Q (returned a) f h = f a h
map-Holds P Q out_of_fuel f h = tt
map-Holds P Q undefined f h = tt
