-- ===== src/Base/Errors.antt =====
-- Rust's `Result`, with the order of its arguments turned so that `E` can stay fixed.
use mathlib.Core.Path.{◌≡◌, refl, subst}
use rust_forge.Base.Tests.{if◌then◌else◌}
use mathlib.Core.Logic.{◌⊎◌, inl, inr}
use mathlib.Core.Bool.{Bool, true, false}
use mathlib.Core.Option.{Option, none, some}

pub data Result {ℓ κ} (E : Type ℓ) (A : Type κ) : Type (ℓ ⊔ κ) where
  ok : A → Result E A
  err : E → Result E A

-- The `?` of the source. It stays shut, so that the rules below find it in a goal.
infixl 5 ◌>>=◌ ◌>>◌
unfoldable pub ◌>>=◌ {ℓ κ μ} :
    {E : Type ℓ} {A : Type κ} {B : Type μ} → Result E A → (A → Result E B) → Result E B
ok a >>= f = f a
err e >>= f = err e

abbrev pub ◌>>◌ {ℓ κ} : {E : Type ℓ} {B : Type κ} → Result E (Unit {0}) → Result E B → Result E B
m >> k = m >>= λ _. k

-- `if !test { return Err(e) }`
abbrev pub guard {ℓ} : {E : Type ℓ} → Bool → E → Result E (Unit {0})
guard true e = ok tt
guard false e = err e

-- `option.ok_or(e)`
abbrev pub ok_or {ℓ κ} : {E : Type ℓ} {A : Type κ} → Option A → E → Result E A
ok_or none e = err e
ok_or (some a) e = ok a

-- `result.map_err(f)`
abbrev pub map_err {ℓ κ μ} :
    {E : Type ℓ} {F : Type κ} {A : Type μ} → (E → F) → Result E A → Result F A
map_err f (ok a) = ok a
map_err f (err e) = err (f e)

pub >>=-eq-ok {ℓ κ μ} :
    {E : Type ℓ} {A : Type κ} {B : Type μ} (m : Result E A) (f : A → Result E B) {b : B}
    → (m >>= f) ≡ ok b
    → (a : A) × (m ≡ ok a) × (f a ≡ ok b)
unfolding ◌>>=◌
>>=-eq-ok (ok a) f h = (a, refl, h)
>>=-eq-ok (err e) f h = cc

pub guard-eq-ok {ℓ κ} :
    {E : Type ℓ} {B : Type κ} (t : Bool) (e : E) (m : Result E B) {b : B}
    → (guard t e >> m) ≡ ok b
    → (t ≡ true) × (m ≡ ok b)
unfolding ◌>>=◌
guard-eq-ok true e m h = (refl, h)
guard-eq-ok false e m h = cc

pub ok-injective {ℓ κ} :
    {E : Type ℓ} {A : Type κ} {a b : A} → ◌≡◌ {A = Result E A} (ok a) (ok b) → a ≡ b
ok-injective h = cc

pub ok_or-eq-ok {ℓ κ} :
    {E : Type ℓ} {A : Type κ} (o : Option A) (e : E) {a : A} → ok_or o e ≡ ok a → o ≡ some a
ok_or-eq-ok none e h = cc
ok_or-eq-ok (some a) e h = cc

pub map_err-eq-ok {ℓ κ μ} :
    {E : Type ℓ} {F : Type κ} {A : Type μ} (f : E → F) (r : Result E A) {a : A}
    → map_err f r ≡ ok a
    → r ≡ ok a
map_err-eq-ok f (ok a) h = cc
map_err-eq-ok f (err e) h = cc

-- What holds of the value of `r`, if it is one; a rule for each way to build a result.
pub record Ensures {ℓ κ μ} {E : Type ℓ} {A : Type κ} (P : A → Type μ) (r : Result E A)
    : Type (ℓ ⊔ κ ⊔ μ) where
  pub at : (a : A) → r ≡ ok a → P a

module _ {ℓ κ μ} {E : Type ℓ} {A : Type κ} {P : A → Type μ} where
  pub Ensures-ok : (a : A) → P a → Ensures {E = E} P (ok a)
  Ensures-ok a p = record { at = λ b e. subst P (ok-injective e) p }

  pub Ensures-err : (e : E) → Ensures P (err e)
  Ensures-err e = record { at = λ b h. cc }

  pub Ensures-bind {ν} :
      {B : Type ν} (m : Result E B) (f : B → Result E A)
      → ((b : B) → m ≡ ok b → Ensures P (f b))
      → Ensures P (m >>= f)
  unfolding ◌>>=◌
  Ensures-bind (ok b) f h = h b refl
  Ensures-bind (err e) f h = Ensures-err e

  pub Ensures-guard :
      (t : Bool) (e : E) (m : Result E A) → (t ≡ true → Ensures P m) → Ensures P (guard t e >> m)
  unfolding ◌>>=◌
  Ensures-guard true e m h = h refl
  Ensures-guard false e m h = Ensures-err e

  pub Ensures-if :
      (t : Bool) (m n : Result E A)
      → (t ≡ true → Ensures P m)
      → (t ≡ false → Ensures P n)
      → Ensures P (if t then m else n)
  Ensures-if true m n hm hn = hm refl
  Ensures-if false m n hm hn = hn refl

pub Ensures-mono {ℓ κ μ ν} :
    {E : Type ℓ} {A : Type κ} {P : A → Type μ} {Q : A → Type ν} {r : Result E A}
    → ((a : A) → P a → Q a)
    → Ensures P r
    → Ensures Q r
Ensures-mono f h = record { at = λ a e. f a (h.at a e) }

pub Result-cases {ℓ κ} :
    {E : Type ℓ} {A : Type κ} (r : Result E A) → ((a : A) × (r ≡ ok a)) ⊎ ((e : E) × (r ≡ err e))
Result-cases (ok a) = inl (a, refl)
Result-cases (err e) = inr (e, refl)
