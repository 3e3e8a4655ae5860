-- ===== src/SdkVersions/Tests.antt =====
-- Tests of `src/agentic/version_policy.py`, with numbers for versions.
use agentica_server.Base.{ℕ, suc, ◌≡◌, refl, ◌≢◌, Option, none, some, [], ◌∷◌, ltb, length}
use agentica_server.Tags.{Text}
use agentica_server.ModelNames.{codes}
use agentica_server.SdkVersions.{
  VersionStatus, ok, deprecated, unsupported, Environment, check_sdk_version, check_sdk_version_lem,
}

-- A text of n characters is version n, and the empty text none.
abbrev version_of : Text → Option ℕ
version_of [] = none
version_of (x ∷ xs) = some (suc (length xs))

abbrev deployed : Environment
deployed = record { organization_id = some (codes "symbolica"); disable_version_check = none }

never_deprecated_test :
    check_sdk_version ltb version_of 3 deployed (codes "python") (codes "ab") ≢ deprecated
never_deprecated_test =
    check_sdk_version_lem ltb version_of 3 deployed (codes "python") (codes "ab")

old_version_test :
    check_sdk_version ltb version_of 3 deployed (codes "python") (codes "ab") ≡ unsupported
unfolding check_sdk_version agentica_server.SdkVersions.is_disabled_version_check
    agentica_server.ModelNames.same_text agentica_server.ModelNames.lookup
    agentica_server.SdkVersions.sdk_version_policies
old_version_test = refl

same_version_test :
    check_sdk_version ltb version_of 3 deployed (codes "typescript") (codes "abc") ≡ ok
unfolding check_sdk_version agentica_server.SdkVersions.is_disabled_version_check
    agentica_server.ModelNames.same_text agentica_server.ModelNames.lookup
    agentica_server.SdkVersions.sdk_version_policies
same_version_test = refl

development_version_test :
    check_sdk_version ltb version_of 3 deployed (codes "python") (codes "0.0.0-dev") ≡ unsupported
unfolding check_sdk_version agentica_server.SdkVersions.is_disabled_version_check
    agentica_server.ModelNames.same_text agentica_server.SdkVersions.is_local_mode
development_version_test = refl
