-- ===== src/Outcome.antt =====
-- How a call ends: it returns, it returns false, it calls exit(1), or its behaviour is undefined.
use graphserv.Prelude.{
  ◌≡◌, ◌⊎◌, inl, inr, refl, subst, if◌then◌else◌, Bool, true, false, Option, none, some,
}

pub data Outcome {ℓ} (A : Type ℓ) : Type ℓ where
  ok : A → Outcome A
  fails : Outcome A
  exits : Outcome A
  undefined : Outcome A

infixl 5 ◌>>=◌
abbrev pub ◌>>=◌ {ℓ κ} : {A : Type ℓ} {B : Type κ} → Outcome A → (A → Outcome B) → Outcome B
ok value >>= next = next value
fails >>= next = fails
exits >>= next = exits
undefined >>= next = undefined

abbrev pub or_undefined {ℓ} : {A : Type ℓ} → Option A → Outcome A
or_undefined none = undefined
or_undefined (some a) = ok a

abbrev pub or_exits {ℓ} : {A : Type ℓ} → Option A → Outcome A
or_exits none = exits
or_exits (some a) = ok a

-- The steps of a call chain that returns.
pub >>=-eq-ok {ℓ κ} :
    {A : Type ℓ} {B : Type κ} {result : B} (first : Outcome A) (next : A → Outcome B)
    → (first >>= next) ≡ ok result
    → (mid : A) × (first ≡ ok mid) × (next mid ≡ ok result)
>>=-eq-ok undefined next h = cc
>>=-eq-ok exits next h = cc
>>=-eq-ok fails next h = cc
>>=-eq-ok (ok mid) next h = (mid, refl, h)

pub >>=-assoc :
    {A B C : Type 0} (r : Outcome A) (f : A → Outcome B) (g : B → Outcome C)
    → (r >>= f >>= g) ≡ (r >>= λ a. f a >>= g)
>>=-assoc (ok a) f g = refl
>>=-assoc fails f g = refl
>>=-assoc exits f g = refl
>>=-assoc undefined f g = refl

pub bind-same :
    {A B : Type 0} (r : Outcome A) (f g : A → Outcome B)
    → ((a : A) → f a ≡ g a)
    → (r >>= f) ≡ (r >>= g)
bind-same (ok a) f g h = h a
bind-same fails f g h = refl
bind-same exits f g h = refl
bind-same undefined f g h = refl

-- What holds of the end of a call that returns.
abbrev pub Post : {A : Type 0} → (A → Type 0) → Outcome A → Type 0
Post P (ok a) = P a
Post P _ = Unit

pub bind-Post :
    {A B : Type 0} (P : A → Type 0) (Q : B → Type 0) (r : Outcome A) (f : A → Outcome B)
    → Post P r
    → ((a : A) → P a → Post Q (f a))
    → Post Q (r >>= f)
bind-Post P Q (ok a) f h k = k a h
bind-Post P Q fails f h k = tt
bind-Post P Q exits f h k = tt
bind-Post P Q undefined f h k = tt

pub Post-map :
    {A : Type 0} (P Q : A → Type 0) (r : Outcome A) → ((a : A) → P a → Q a) → Post P r → Post Q r
Post-map P Q (ok a) f h = f a h
Post-map P Q fails f h = tt
Post-map P Q exits f h = tt
Post-map P Q undefined f h = tt

pub Post-ok : {A : Type 0} (P : A → Type 0) (r : Outcome A) {x : A} → Post P r → r ≡ ok x → P x
Post-ok P (ok y) {x} p e = let q : y ≡ x = cc in subst P q p
Post-ok P fails p e = cc
Post-ok P exits p e = cc
Post-ok P undefined p e = cc

-- The call returns, or there is the trouble.
abbrev pub Ends : {A : Type 0} → Type 0 → Outcome A → Type 0
Ends {A} T r = ((x : A) × (r ≡ ok x)) ⊎ T

pub Ends-map : {A T U : Type 0} {r : Outcome A} → (T → U) → Ends T r → Ends U r
Ends-map f (inl x) = inl x
Ends-map f (inr t) = inr (f t)

pub bind-Ends :
    {A B T : Type 0} (r : Outcome A) (f : A → Outcome B)
    → Ends T r
    → ((x : A) → Ends T (f x))
    → Ends T (r >>= f)
bind-Ends (ok x) f e h = h x
bind-Ends fails f (inl (x, e)) h = cc
bind-Ends fails f (inr t) h = inr t
bind-Ends exits f (inl (x, e)) h = cc
bind-Ends exits f (inr t) h = inr t
bind-Ends undefined f (inl (x, e)) h = cc
bind-Ends undefined f (inr t) h = inr t

pub found-Ends :
    {A B T : Type 0} (o : Option A) (x : Outcome B) (f : A → Outcome B)
    → Ends T x
    → ((a : A) → o ≡ some a → Ends T (f a))
    → Ends T (elim o [ none ↦ x | some a ↦ f a ])
found-Ends none x f hx hf = hx
found-Ends (some a) x f hx hf = hf a refl

pub if-Ends :
    {B T : Type 0} (b : Bool) (x y : Outcome B) → Ends T x → Ends T y → Ends T (if b then x else y)
if-Ends true x y hx hy = hx
if-Ends false x y hx hy = hy
