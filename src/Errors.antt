-- ===== src/Errors.antt =====
-- impl/error.cpp and include/software-on-silicon/error.hpp: the codes, their texts, and the two
-- functions that report one and end the program.
pub mod Code
pub mod Message
pub mod Decode
pub mod Yields
use Prim.Native.String.{String, ◌++◌}
use software_on_silicon.Base.{Option, none, some, Bool, true, false, ◌≡◌, refl, if◌then◌else◌}
use Code.{ErrorCode}
use Message.{error_message}

pub data Severity : Type 0 where
  logic : Severity
  runtime : Severity

-- What a call comes to: it returns, it has called `logic_error` or `runtime_error`, which print a
-- report and call `abort()`, or it still spins on a flag that another thread has to clear.
pub data Outcome {ℓ} (A : Type ℓ) : Type ℓ where
  ok : A → Outcome A
  aborted : Severity → ErrorCode → Outcome A
  spin : Outcome A

infixl 5 ◌>>=◌
abbrev pub ◌>>=◌ {ℓ κ} : {A : Type ℓ} {B : Type κ} → Outcome A → (A → Outcome B) → Outcome B
ok a >>= f = f a
aborted s e >>= f = aborted s e
spin >>= f = spin

abbrev pub logic_error {ℓ} : {A : Type ℓ} → ErrorCode → Outcome A
logic_error = aborted Severity.logic

abbrev pub runtime_error {ℓ} : {A : Type ℓ} → ErrorCode → Outcome A
runtime_error = aborted Severity.runtime

severity_name : Severity → String
severity_name Severity.logic = "Logic"
severity_name Severity.runtime = "Runtime"

name_or_empty : Option String → String
name_or_empty none = ""
name_or_empty (some name) = name

-- The line on `std::cerr`; `none` is the null `modname`.
pub report : Severity → ErrorCode → String → String → Option String → String
unfolding severity_name name_or_empty
report severity what file_name function_name modname =
    "\n"
    ++ severity_name severity
    ++ name_or_empty modname
    ++ "Error: "
    ++ error_message what
    ++ ". "
    ++ file_name
    ++ "::"
    ++ function_name
    ++ "\n"

pub ok_inj : {A : Type 0} {a b : A} → ok a ≡ ok b → a ≡ b
ok_inj e = cc

pub aborted_not_ok : {A : Type 0} {s : Severity} {c : ErrorCode} {b : A} → ¬ (aborted s c ≡ ok b)
aborted_not_ok e = cc

-- A call that satisfies `P` if it returns, may abort, and does not spin.
pub data Safe {ℓ} {A : Type ℓ} (P : A → Type 0) : Outcome A → Type ℓ where
  returns : (a : A) → P a → Safe P (ok a)
  aborts : (s : Severity) (e : ErrorCode) → Safe P (aborted s e)

-- The rule for a sequence of calls.
pub >>=-Safe {ℓ κ} :
    {A : Type ℓ} {B : Type κ} (P : A → Type 0) (Q : B → Type 0) (m : Outcome A) (f : A → Outcome B)
    → Safe P m
    → ((a : A) → P a → Safe Q (f a))
    → Safe Q (m >>= f)
>>=-Safe P Q (ok _) f (Safe.returns a h) k = k a h
>>=-Safe P Q (aborted _ _) f (Safe.aborts s e) k = Safe.aborts s e
>>=-Safe P Q spin f h k = elim h [ ]

-- The rule for a test.
pub if-Safe {ℓ} :
    {A : Type ℓ} (P : A → Type 0) (test : Bool) (x y : Outcome A)
    → (test ≡ true → Safe P x)
    → (test ≡ false → Safe P y)
    → Safe P (if test then x else y)
if-Safe P true x y h k = h refl
if-Safe P false x y h k = k refl

-- A weaker property.
pub Safe-weaken {ℓ} :
    {A : Type ℓ} (P Q : A → Type 0) (m : Outcome A) → ((a : A) → P a → Q a) → Safe P m → Safe Q m
Safe-weaken P Q (ok _) k (Safe.returns a h) = Safe.returns a (k a h)
Safe-weaken P Q (aborted _ _) k (Safe.aborts s e) = Safe.aborts s e
Safe-weaken P Q spin k h = elim h [ ]
