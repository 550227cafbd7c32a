-- ===== src/Domain/Results.antt =====
-- What a result that was returned says of the steps before it.
use cimp.Prelude.{◌⊎◌, inl, inr, ◌≡◌, ◌≢◌, refl, Option, none, some, Bool, true, false}
use cimp.Domain.{Result, ok, err, ◌>>=◌, ◌>>◌, HttpError, found, require}

-- If the whole returns, so does its first step, and the rest on what that returned.
pub >>=-eq-ok {κ μ} :
    {X : Type κ} {Y : Type μ} (first : Result X) (next : X → Result Y) {y : Y}
    → (first >>= next) ≡ ok y
    → (x : X) × (first ≡ ok x) × (next x ≡ ok y)
>>=-eq-ok (err e) next returned = cc
>>=-eq-ok (ok x) next returned = (x, refl, returned)

pub Result-cases {ℓ} :
    {A : Type ℓ} (r : Result A) → ((a : A) × (r ≡ ok a)) ⊎ ((e : HttpError) × (r ≡ err e))
Result-cases (ok a) = inl (a, refl)
Result-cases (err e) = inr (e, refl)

pub found-eq-ok {ℓ} :
    {A : Type ℓ} (o : Option A) (e : HttpError) {a : A} → found o e ≡ ok a → o ≡ some a
found-eq-ok none e h = cc
found-eq-ok (some b) e h = cc

pub require-eq-ok : (b : Bool) (e : HttpError) → require b e ≡ ok tt → b ≡ true
require-eq-ok true e h = refl
require-eq-ok false e h = cc

pub >>-eq-ok {μ} :
    {Y : Type μ} (first : Result (Unit {0})) (rest : Result Y) {y : Y}
    → (first >> rest) ≡ ok y
    → rest ≡ ok y
>>-eq-ok (err e) rest returned = cc
>>-eq-ok (ok done) rest returned = returned

-- The first step of two that return.
pub >>-eq-ok_first {μ} :
    {Y : Type μ} (first : Result (Unit {0})) (rest : Result Y) {y : Y}
    → (first >> rest) ≡ ok y
    → first ≡ ok tt
>>-eq-ok_first (err e) rest returned = absurd (cc returned)
>>-eq-ok_first (ok done) rest returned = refl

pub ok-injective {ℓ} : {A : Type ℓ} {x y : A} → ok x ≡ ok y → x ≡ y
ok-injective h = cc

-- An error that comes from neither a step nor what follows it.
pub >>=-ne-err {κ μ} :
    {X : Type κ} {Y : Type μ} (first : Result X) (next : X → Result Y) (e : HttpError)
    → first ≢ err e
    → ((x : X) → first ≡ ok x → next x ≢ err e)
    → (first >>= next) ≢ err e
>>=-ne-err (err e') next e h k same = h (cc same)
>>=-ne-err (ok x) next e h k same = k x refl same

pub >>-ne-err {μ} :
    {Y : Type μ} (b : Bool) (e' e : HttpError) (rest : Result Y)
    → e' ≢ e
    → rest ≢ err e
    → (require b e' >> rest) ≢ err e
>>-ne-err true e' e rest h k same = k same
>>-ne-err false e' e rest h k same = h (cc same)

pub found-ne-err {ℓ} : {A : Type ℓ} (o : Option A) (e' e : HttpError) → e' ≢ e → found o e' ≢ err e
found-ne-err none e' e h same = h (cc same)
found-ne-err (some a) e' e h same = cc same

-- Equal rests give equal results.
pub >>=-eq {κ μ} :
    {X : Type κ} {Y : Type μ} (first : Result X) (next next' : X → Result Y)
    → ((x : X) → next x ≡ next' x)
    → (first >>= next) ≡ (first >>= next')
>>=-eq (err e) next next' h = refl
>>=-eq (ok x) next next' h = h x
