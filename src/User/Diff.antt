-- ===== src/User/Diff.antt =====
-- The checks of a user's plan (resource_redshift_user.go), and what they mean for the statements.
use terraform_provider_redsh.Base.{
  String, Bool, true, not, ◌&&◌, ◌==◌, if◌then◌else◌, Option, none, some, ◌≡◌, ◌≢◌, arith,
}
use terraform_provider_redsh.User.{
  UserAttributes, get_default_syslog_access, syslog_access_computed,
}

-- The `CustomizeDiff`: none, or the error. The flags say whether the new values are known.
unfoldable pub customize_diff : Bool → Bool → UserAttributes → Option String
customize_diff is_password_known is_syslog_access_known a =
    if a.superuser && (is_password_known && a.password == "")
    then some "users that are superusers must define a password"
    else if a.superuser
        && (is_syslog_access_known
            && (not (a.syslog_access == "") && not (a.syslog_access == "UNRESTRICTED")))
    then some "superusers must have syslog access set to \"UNRESTRICTED\""
    else none

-- The `DiffSuppressFunc` of `syslog_access`.
unfoldable suppress_syslog_access : String → String → UserAttributes → Bool
suppress_syslog_access old_value new_value a =
    new_value == "" && old_value == get_default_syslog_access a

-- A plan with known values that passes the check gives a superuser a password, and the statements
-- give the user the syslog access that is configured, if one is.
customize_diff_of_planned :
    (a : UserAttributes)
    → customize_diff true true a ≡ none
    → (a.superuser ≡ true → a.password ≢ "")
      × (a.syslog_access ≢ "" → syslog_access_computed a ≡ a.syslog_access)
unfolding customize_diff syslog_access_computed
customize_diff_of_planned a h = (λ s e. absurd (ground arith), λ n. ground arith)

-- A difference in the syslog access is suppressed only if the statements would give the access that
-- the user has.
suppress_syslog_access_lem :
    (old_value : String) (a : UserAttributes)
    → suppress_syslog_access old_value a.syslog_access a ≡ true
    → syslog_access_computed a ≡ old_value
unfolding suppress_syslog_access syslog_access_computed get_default_syslog_access
suppress_syslog_access_lem old_value a h = ground arith
