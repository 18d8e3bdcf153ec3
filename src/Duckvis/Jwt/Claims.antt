-- ===== src/Duckvis/Jwt/Claims.antt =====
-- duckvis/jwt.rs: the guards on the claims, read as what they test.
use swanlake.Prelude.{
  ◌≡◌, ◌≢◌, ◌↔◌, refl, Bool, true, false, [], ◌∷◌, Option, none, some, arith, ℤ, ap, subst, sym,
}
use swanlake.Text.{Bytes, codes, bytes_eq_iff}
use swanlake.Duckvis.{unauthenticated, Outcome, ok, ◌>>=◌, ok_or}
use swanlake.Duckvis.Jwt.{
  Jose, ActorKind, human, service, DuckvisClaims, str_claim, int_claim, is_str, require,
  actor_kind_of, non_empty, in_time, validate_claims, aud_swanlake,
}
use swanlake.Duckvis.Jwt.Spec.{kind_name, InWindow, HasClaims}

pub require_iff : (b : Bool) (u : Unit {0}) → (require b ≡ ok u) ↔ (b ≡ true)
require_iff true u = (λ _. refl, λ _. refl)
require_iff false u = (λ h. absurd (cc h), λ h. absurd (cc h))

pub is_str_iff : (e : Bytes) (o : Option Bytes) → (is_str e o ≡ true) ↔ (o ≡ some e)
unfolding is_str
is_str_iff e none = (λ h. absurd (cc h), λ h. absurd (cc h))
is_str_iff e (some s) = (λ h. ap some ((bytes_eq_iff s e).0 h), λ h. (bytes_eq_iff s e).1 (cc h))

kind-named :
    (s : Bytes) (k : ActorKind) → actor_kind_of (some s) ≡ some k → some s ≡ some (kind_name k)
unfolding actor_kind_of
kind-named s human h = ground (arith, bytes_eq_iff s (codes "human"))
kind-named s service h = ground (arith, bytes_eq_iff s (codes "service"))

pub actor_kind_of_iff :
    (o : Option Bytes) (k : ActorKind) → (actor_kind_of o ≡ some k) ↔ (o ≡ some (kind_name k))
unfolding actor_kind_of
actor_kind_of_iff none k = (λ h. absurd (cc h), λ h. absurd (cc h))
actor_kind_of_iff (some s) human =
    (kind-named s human, λ h. subst (λ o. actor_kind_of o ≡ some human) (sym h) refl)
actor_kind_of_iff (some s) service =
    (kind-named s service, λ h. subst (λ o. actor_kind_of o ≡ some service) (sym h) refl)

pub non_empty_iff :
    (o : Option Bytes) (s : Bytes) → (non_empty o ≡ some s) ↔ ((o ≡ some s) × (s ≢ []))
unfolding non_empty
non_empty_iff none s = (λ h. absurd (cc h), λ h. absurd (cc h.0))
non_empty_iff (some []) s = (λ h. absurd (cc h), λ h. absurd (h.1 (cc h.0)))
non_empty_iff (some (c ∷ cs)) s = (λ h. (h, λ e. absurd (cc (e, h))), λ h. h.0)

pub in_time_iff : (now exp nbf : ℤ) → (in_time now exp nbf ≡ true) ↔ InWindow now exp nbf
unfolding in_time
in_time_iff now exp nbf = ground arith

-- A step that must be there, and a guard that must hold, before the rest of the chain.
pub ok-given {ℓ κ} :
    {A : Type ℓ} {B : Type κ} (o : Option A) (f : A → Outcome B) (b : B)
    → (ok_or unauthenticated o >>= f) ≡ ok b
    → (a : A) × (o ≡ some a) × (f a ≡ ok b)
ok-given none f b h = absurd (cc h)
ok-given (some a) f b h = (a, refl, h)

pub ok-required {κ} :
    {B : Type κ} (test : Bool) (f : Unit {0} → Outcome B) (b : B)
    → (require test >>= f) ≡ ok b
    → (test ≡ true) × (f tt ≡ ok b)
ok-required true f b h = (refl, h)
ok-required false f b h = absurd (cc h)

module _ (jose : Jose) (expected_iss : Bytes) (now : ℤ) (obj : jose.Object)
    (claims : DuckvisClaims) where
  abbrev claim : Bytes → Option Bytes
  claim = str_claim jose obj

  pub validate_claims-HasClaims :
      validate_claims jose expected_iss now obj ≡ ok claims
      → HasClaims jose expected_iss now obj claims
  unfolding validate_claims
  validate_claims-HasClaims h0 =
      let (exp, e1, h1) = ok-given (int_claim jose obj (codes "exp")) _ claims h0 in
      let (nbf, e2, h2) = ok-given (int_claim jose obj (codes "nbf")) _ claims h1 in
      let (e3, h3) = ok-required (in_time now exp nbf) _ claims h2 in
      let (e4, h4) = ok-required (is_str expected_iss (claim (codes "iss"))) _ claims h3 in
      let (kind, e5, h5) = ok-given (actor_kind_of (claim (codes "actor_kind"))) _ claims h4 in
      let (sub, e6, h6) = ok-given (non_empty (claim (codes "sub"))) _ claims h5 in
      let (e7, h7) = ok-required (is_str aud_swanlake (claim (codes "aud"))) _ claims h6 in
      let (e8, e9) = (non_empty_iff (claim (codes "sub")) sub).0 e6 in
      subst (HasClaims jose expected_iss now obj) (cc h7) (record {
        exp = exp;
        nbf = nbf;
        exp_claim = e1;
        nbf_claim = e2;
        window = (in_time_iff now exp nbf).0 e3;
        iss_claim = (is_str_iff expected_iss _).0 e4;
        kind_claim = (actor_kind_of_iff _ kind).0 e5;
        sub_claim = e8;
        sub_given = e9;
        aud_claim = (is_str_iff aud_swanlake _).0 e7;
      })

  pub HasClaims-validate_claims :
      HasClaims jose expected_iss now obj claims
      → validate_claims jose expected_iss now obj ≡ ok claims
  unfolding validate_claims
  HasClaims-validate_claims c =
      rw
        (
          c.exp_claim,
          c.nbf_claim,
          (in_time_iff now c.exp c.nbf).1 c.window,
          (is_str_iff expected_iss (claim (codes "iss"))).1 c.iss_claim,
          (actor_kind_of_iff (claim (codes "actor_kind")) claims.actor_kind).1 c.kind_claim,
          (non_empty_iff (claim (codes "sub")) claims.sub).1 (c.sub_claim, c.sub_given),
          (is_str_iff aud_swanlake (claim (codes "aud"))).1 c.aud_claim,
        )
        refl
