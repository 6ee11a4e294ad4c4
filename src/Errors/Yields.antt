-- ===== src/Errors/Yields.antt =====
-- What a call of the protocol makes true where it returns, whatever it does where it does not.
use software_on_silicon.Base.{◌≡◌, refl, arith, Bool, true, false, if◌then◌else◌}
use software_on_silicon.Errors.{Outcome, ok, aborted, spin, Severity, ◌>>=◌}
use software_on_silicon.Errors.Code.{ErrorCode}

-- A call that satisfies `P` if it returns.
pub data Yields {ℓ} {A : Type ℓ} (P : A → Type 0) : Outcome A → Type ℓ where
  yields : (a : A) → P a → Yields P (ok a)
  reports : (s : Severity) (e : ErrorCode) → Yields P (aborted s e)
  hangs : Yields P spin

pub >>=-Yields {ℓ κ} :
    {A : Type ℓ} {B : Type κ} (P : A → Type 0) (Q : B → Type 0) (m : Outcome A) (f : A → Outcome B)
    → Yields P m
    → ((a : A) → P a → Yields Q (f a))
    → Yields Q (m >>= f)
>>=-Yields P Q (ok _) f (Yields.yields a h) k = k a h
>>=-Yields P Q (aborted _ _) f (Yields.reports s e) k = Yields.reports s e
>>=-Yields P Q spin f Yields.hangs k = Yields.hangs

pub if-Yields {ℓ} :
    {A : Type ℓ} (P : A → Type 0) (test : Bool) (x y : Outcome A)
    → (test ≡ true → Yields P x)
    → (test ≡ false → Yields P y)
    → Yields P (if test then x else y)
if-Yields P true x y h k = h refl
if-Yields P false x y h k = k refl

pub Yields-ok : {A : Type 0} (P : A → Type 0) (m : Outcome A) (a : A) → Yields P m → m ≡ ok a → P a
Yields-ok P (ok _) a (Yields.yields b h) e = ground (arith, e)
Yields-ok P (aborted _ _) a (Yields.reports s c) e = ground (arith, e)
Yields-ok P spin a Yields.hangs e = ground (arith, e)

-- An equation between calls is enough.
pub ok-Yields :
    {A : Type 0} (P : A → Type 0) (m : Outcome A) → ((a : A) → m ≡ ok a → P a) → Yields P m
ok-Yields P (ok a) k = Yields.yields a (k a refl)
ok-Yields P (aborted s e) k = Yields.reports s e
ok-Yields P spin k = Yields.hangs

pub Yields-weaken :
    {A : Type 0} (P Q : A → Type 0) (m : Outcome A)
    → ((a : A) → P a → Q a)
    → Yields P m
    → Yields Q m
Yields-weaken P Q (ok _) k (Yields.yields a h) = Yields.yields a (k a h)
Yields-weaken P Q (aborted _ _) k (Yields.reports s e) = Yields.reports s e
Yields-weaken P Q spin k Yields.hangs = Yields.hangs
