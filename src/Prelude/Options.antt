-- ===== src/Prelude/Options.antt =====
-- `?` on an `Option`.
use mathlib.Core.Option.{Option, none, some}
use mathlib.Core.Path.{◌≡◌, refl}

infixl 5 ◌>>=◌
abbrev pub ◌>>=◌ {ℓ κ} : {A : Type ℓ} {B : Type κ} (o : Option A) (rest : A → Option B) → Option B
none >>= rest = none
some here >>= rest = rest here

-- Where it went through, there was a value.
pub >>=-eq-some {ℓ κ} :
    {A : Type ℓ} {B : Type κ} (o : Option A) (rest : A → Option B) {answer : B}
    → (o >>= rest) ≡ some answer
    → (here : A) × (o ≡ some here) × (rest here ≡ some answer)
>>=-eq-some none rest e = cc
>>=-eq-some (some here) rest e = (here, refl, e)
