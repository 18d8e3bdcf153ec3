-- ===== src/Duckvis.antt =====
-- swanlake-core/src/duckvis: the errors of the authenticated mode and their statuses, with the tokens
-- of users and of the service account.
pub mod Jwt
pub mod Jwks
pub mod Validate
pub mod Sa
pub mod Api
pub mod Fixture
use swanlake.Prelude.{◌≡◌, refl, List, ◌∷◌, Option, none, some}
use swanlake.Text.{Bytes, codes}

pub data DuckvisError : Type 0 where
  unauthenticated : DuckvisError
  permission_denied : DuckvisError
  session_subject_mismatch : DuckvisError
  session_project_mismatch : DuckvisError
  session_bind_race : DuckvisError
  attachment_not_resolvable : DuckvisError
  invalid_argument : DuckvisError
  attach_invalid : DuckvisError
  unavailable : DuckvisError

-- The codes of `tonic::Status` that the source uses.
pub data Code : Type 0 where
  unauthenticated : Code
  permission_denied : Code
  invalid_argument : Code
  unavailable : Code
  cancelled : Code
  failed_precondition : Code
  resource_exhausted : Code
  internal : Code

-- `tonic::Status`
abbrev pub Status : Type 0
Status = Code × Bytes

unfoldable pub into_status : DuckvisError → Status
into_status unauthenticated = (Code.unauthenticated, codes "authentication required")
into_status permission_denied = (Code.permission_denied, codes "permission denied")
into_status session_subject_mismatch =
    (Code.permission_denied, codes "session is bound to a different subject")
into_status session_project_mismatch =
    (Code.permission_denied, codes "session is bound to a different project")
into_status session_bind_race =
    (Code.permission_denied, codes "session bind lost a race with another client")
into_status attachment_not_resolvable =
    (Code.permission_denied, codes "attachment is not allowlisted for this project")
into_status invalid_argument = (Code.invalid_argument, codes "invalid argument")
into_status attach_invalid = (Code.invalid_argument, codes "invalid attachment configuration")
into_status unavailable = (Code.unavailable, codes "authorization service unavailable")

pub data Outcome {ℓ} (A : Type ℓ) : Type ℓ where
  ok : A → Outcome A
  err : DuckvisError → Outcome A

infixl 5 ◌>>=◌
abbrev pub ◌>>=◌ {ℓ κ} : {A : Type ℓ} {B : Type κ} → Outcome A → (A → Outcome B) → Outcome B
ok a >>= f = f a
err e >>= f = err e

-- `Option::ok_or`
abbrev pub ok_or {ℓ} : {A : Type ℓ} → DuckvisError → Option A → Outcome A
ok_or e none = err e
ok_or e (some a) = ok a

pub ok-bind {ℓ κ} :
    {A : Type ℓ} {B : Type κ} (r : Outcome A) (f : A → Outcome B) (b : B)
    → (r >>= f) ≡ ok b
    → (a : A) × (r ≡ ok a) × (f a ≡ ok b)
ok-bind (ok a) f b h = (a, refl, h)
ok-bind (err e) f b h = absurd (cc h)

pub ok-ok_or {ℓ} :
    {A : Type ℓ} (e : DuckvisError) (o : Option A) (a : A) → ok_or e o ≡ ok a → o ≡ some a
ok-ok_or e none a h = absurd (cc h)
ok-ok_or e (some b) a h = cc h

-- Every failure of `r` is `e`.
abbrev pub FailsBy {ℓ} : {A : Type ℓ} → DuckvisError → Outcome A → Type 0
FailsBy e (ok a) = Unit
FailsBy e (err f) = f ≡ e

pub FailsBy-bind {ℓ κ} :
    {A : Type ℓ} {B : Type κ} (e : DuckvisError) (r : Outcome A) (f : A → Outcome B)
    → FailsBy e r
    → ((a : A) → FailsBy e (f a))
    → FailsBy e (r >>= f)
FailsBy-bind e (ok a) f h k = k a
FailsBy-bind e (err g) f h k = h

pub FailsBy-ok_or {ℓ} : {A : Type ℓ} (e : DuckvisError) (o : Option A) → FailsBy e (ok_or e o)
FailsBy-ok_or e none = refl
FailsBy-ok_or e (some a) = tt

-- The call ended with a value that has `P`, or with the error `e`.
abbrev pub Ends {ℓ} : {A : Type ℓ} → DuckvisError → (A → Type 0) → Outcome A → Type 0
Ends e P (ok a) = P a
Ends e P (err f) = f ≡ e

pub Ends-cases {ℓ} :
    {A : Type ℓ} (e : DuckvisError) (P : A → Type 0) (r : Outcome A)
    → ((a : A) → r ≡ ok a → P a)
    → FailsBy e r
    → Ends e P r
Ends-cases e P (ok a) h k = h a refl
Ends-cases e P (err f) h k = k
