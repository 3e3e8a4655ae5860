-- ===== src/SdkVersions.antt =====
-- `check_sdk_version` of `src/agentic/version_policy.py`. Versions, their order and their parser are
-- those of `packaging.version`; `manager_version` is the version of the server.
mod Tests
use agentica_server.Base.{
  ◌≡◌, refl, ap, subst, ◌≢◌, Bool, true, false, ◌&&◌, not, Option, none, some, List, [], ◌∷◌,
  if◌then◌else◌, arith, Bool-cases, inl, inr,
}
use agentica_server.Tags.{Text}
use agentica_server.ModelNames.{codes, same_text, lookup}

pub data VersionStatus : Type 0 where
  ok deprecated unsupported : VersionStatus

-- The variables ORGANIZATION_ID and AGENTICA_SERVER_DISABLE_VERSION_CHECK, where they are set.
pub record Environment : Type 0 where
  pub organization_id : Option Text
  pub disable_version_check : Option Text

pub record SdkVersionPolicy (V : Type 0) : Type 0 where
  pub min_supported : V
  pub min_recommended : V

abbrev pub get_env : Option Text → Text → Text
get_env none default = default
get_env (some t) default = t

unfoldable pub is_local_mode : Environment → Bool
is_local_mode env =
    same_text (get_env env.organization_id (codes "LOCAL_SESSION_MANAGER"))
      (codes "LOCAL_SESSION_MANAGER")

unfoldable pub is_disabled_version_check : Environment → Bool
is_disabled_version_check env =
    same_text (get_env env.disable_version_check (codes "0")) (codes "1")

-- SDK_VERSION_POLICIES
unfoldable pub sdk_version_policies : {V : Type 0} → V → List (Text × SdkVersionPolicy V)
sdk_version_policies v =
    (codes "python", record { min_supported = v; min_recommended = v })
    ∷ (codes "typescript", record { min_supported = v; min_recommended = v })
    ∷ []

module _ {V : Type 0} (lt : V → V → Bool) (parse_version : Text → Option V) where
  -- `Version` raises on a text that is no version.
  unfoldable pub compare_version : Option V → SdkVersionPolicy V → VersionStatus
  compare_version none policy = unsupported
  compare_version (some v) policy =
      if lt v policy.min_supported
      then unsupported
      else if lt v policy.min_recommended
      then deprecated
      else ok

  unfoldable pub apply_policy : Text → Option (SdkVersionPolicy V) → VersionStatus
  unfolding compare_version
  apply_policy version none = ok
  apply_policy version (some policy) = compare_version (parse_version version) policy

  unfoldable pub check_sdk_version : V → Environment → Text → Text → VersionStatus
  unfolding apply_policy
  check_sdk_version manager_version env sdk version =
      if is_disabled_version_check env
      then ok
      else if same_text version (codes "0.0.0-dev")
      then if is_local_mode env then ok else unsupported
      else apply_policy version (lookup sdk (sdk_version_policies manager_version))

  -- One and the same version bounds support and recommendation.
  abbrev Single : V → Option (SdkVersionPolicy V) → Type 0
  Single v none = Unit
  Single v (some policy) = (policy.min_supported ≡ v) × (policy.min_recommended ≡ v)

  policies-Single : (v : V) (sdk : Text) → Single v (lookup sdk (sdk_version_policies v))
  unfolding lookup sdk_version_policies
  policies-Single v sdk = elim (Bool-cases (same_text sdk (codes "python"))) [
    | inl e ↦ rw e (refl, refl)
    | inr e ↦ elim (Bool-cases (same_text sdk (codes "typescript"))) [
      | inl f ↦ rw (e, f) (refl, refl)
      | inr f ↦ rw (e, f) tt
    ]
  ]

  compare_version_lem :
      (v : V) (o : Option V) (policy : SdkVersionPolicy V)
      → Single v (some policy)
      → compare_version o policy ≢ deprecated
  unfolding compare_version
  compare_version_lem v none policy h e = absurd (ground arith)
  compare_version_lem v (some u) policy (a, b) e = elim (Bool-cases (lt u v)) [
    | inl f ↦ absurd (ground (arith, a, b, f, e))
    | inr f ↦ absurd (ground (arith, a, b, f, e))
  ]

  apply_policy_lem :
      (v : V) (version : Text) (o : Option (SdkVersionPolicy V))
      → Single v o
      → apply_policy version o ≢ deprecated
  unfolding apply_policy
  apply_policy_lem v version none h e = absurd (ground arith)
  apply_policy_lem v version (some policy) h e =
      compare_version_lem v (parse_version version) policy h e

  -- Whatever the environment, the SDK and its version are, no version is called deprecated.
  pub check_sdk_version_lem :
      (v : V) (env : Environment) (sdk version : Text)
      → check_sdk_version v env sdk version ≢ deprecated
  unfolding check_sdk_version
  check_sdk_version_lem v env sdk version e =
      let h =
        apply_policy_lem v version (lookup sdk (sdk_version_policies v)) (policies-Single v sdk) in
      absurd (ground (arith, h))
