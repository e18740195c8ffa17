-- ===== src/Prelude/Results.antt =====
-- What a fallible chain or a conjunction of the source that ends well says about its parts.
use mathlib.Core.Path.{◌≡◌, refl}
use mathlib.Core.Bool.{Bool, true, false, ◌&&◌}
use mathlib.Core.Option.{Option, none, some}
use k_engram.Prelude.Tests.{Result, ok, err, and_then, map_err, ok_or, if◌then◌else◌}

-- A chain that answers has a first part that does, whose value the rest answers.
pub and_then_ok {ℓ κ μ} :
    {E : Type ℓ} {A : Type κ} {B : Type μ} (r : Result E A) (f : A → Result E B) (b : B)
    → and_then r f ≡ ok b
    → (a : A) × (r ≡ ok a) × (f a ≡ ok b)
and_then_ok (ok a) f b e = (a, refl, e)
and_then_ok (err x) f b e = cc

pub if_err_ok {ℓ κ} :
    {E : Type ℓ} {B : Type κ} (test : Bool) (x : E) (r : Result E B) (b : B)
    → (if test then err x else r) ≡ ok b
    → (test ≡ false) × (r ≡ ok b)
if_err_ok true x r b e = cc
if_err_ok false x r b e = (refl, e)

pub if_ok_err {ℓ κ} :
    {E : Type ℓ} {B : Type κ} (test : Bool) (x : E) (r : Result E B) (b : B)
    → (if test then r else err x) ≡ ok b
    → (test ≡ true) × (r ≡ ok b)
if_ok_err true x r b e = (refl, e)
if_ok_err false x r b e = cc

pub map_err_ok {ℓ κ μ} :
    {E : Type ℓ} {F : Type κ} {A : Type μ} (f : E → F) (r : Result E A) (a : A)
    → map_err f r ≡ ok a
    → r ≡ ok a
map_err_ok f (ok b) a e = cc
map_err_ok f (err x) a e = cc

pub ok_or_ok {ℓ κ} :
    {E : Type ℓ} {A : Type κ} (o : Option A) (x : E) (a : A) → ok_or o x ≡ ok a → o ≡ some a
ok_or_ok none x a e = cc
ok_or_ok (some b) x a e = cc

pub ok_injective {ℓ κ} :
    {E : Type ℓ} {A : Type κ} {a b : A} → ◌≡◌ {A = Result E A} (ok a) (ok b) → a ≡ b
ok_injective e = cc

pub and_true : (a b : Bool) → (a && b) ≡ true → (a ≡ true) × (b ≡ true)
and_true true b e = (refl, e)
and_true false b e = cc

pub true_and : (a b : Bool) → a ≡ true → b ≡ true → (a && b) ≡ true
true_and a b p q = rw p q
