-- ===== src/User/Literals.antt =====
-- The literals of the statements that create users (resource_redshift_user.go).
use terraform_provider_redsh.Base.{
  String, ◌<>◌, Bool, true, false, List, [], ◌∷◌, ◌++◌, ◌==◌, if◌then◌else◌, some, ◌≡◌, refl, inl,
  inr, Bool-cases, subst, append-nil,
}
use terraform_provider_redsh.Strings.{double_char}
use terraform_provider_redsh.Strings.Decimal.{ℤ, pos, int_eq, show_int}
use terraform_provider_redsh.Strings.Digits.{Lacks-show_int}
use terraform_provider_redsh.Strings.Laws.{is_without, is_without-Lacks}
use terraform_provider_redsh.External.{Env}
use terraform_provider_redsh.Helpers.{lower, pq_quote_literal}
use terraform_provider_redsh.Helpers.Literals.{
  literals, Adds, AddsAll, AddsAll-append, Adds-append, Adds-join, Adds-words, Adds-quoted,
  literals_of_Adds,
}
use terraform_provider_redsh.User.{
  UserAttributes, string_options, int_options, bool_options, create_user_query, password_query,
  valid_until_query,
}

module _ (env : Env) where
  -- The texts of a new user that stand in literals.
  abbrev user_texts : UserAttributes → List String
  user_texts a =
      (if a.password == "" then [] else a.password ∷ [])
      ++ (if a.valid_until == ""
          then []
          else (if lower env a.valid_until == "infinity" then "infinity" else a.valid_until) ∷ [])

  words : (s : String) → is_without b'\'' s ≡ true → Adds s []
  words s h = Adds-words s (is_without-Lacks b'\'' s h)

  one : (f : String) (xs : List String) → Adds f xs → AddsAll (f ∷ []) xs
  one f xs a = subst (AddsAll (f ∷ [])) (append-nil xs) (AddsAll.next f [] xs [] a AddsAll.done)

  Adds-password :
      (a : UserAttributes)
      → Adds
          (if a.password == ""
            then "PASSWORD DISABLE"
            else "PASSWORD '" <> (pq_quote_literal a.password <> "'"))
          (if a.password == "" then [] else a.password ∷ [])
  Adds-password a = elim (Bool-cases (a.password == "")) [
    | inl unset ↦ rw unset (words "PASSWORD DISABLE" refl)
    | inr set ↦ rw set (Adds-quoted "PASSWORD " a.password refl)
  ]

  Adds-infinity : Adds "VALID UNTIL 'infinity'" ("infinity" ∷ [])
  unfolding pq_quote_literal double_char
  Adds-infinity = Adds-quoted "VALID UNTIL " "infinity" refl

  AddsAll-valid_until :
      (a : UserAttributes)
      → AddsAll
          (if a.valid_until == ""
            then []
            else if lower env a.valid_until == "infinity"
            then "VALID UNTIL 'infinity'" ∷ []
            else ("VALID UNTIL '" <> (pq_quote_literal a.valid_until <> "'")) ∷ [])
          (if a.valid_until == ""
            then []
            else (if lower env a.valid_until == "infinity" then "infinity" else a.valid_until) ∷ [])
  AddsAll-valid_until a = elim (Bool-cases (a.valid_until == "")) [
    | inl unset ↦ rw unset AddsAll.done
    | inr set ↦ elim (Bool-cases (lower env a.valid_until == "infinity")) [
      | inl forever ↦ rw (set, forever) (one _ _ Adds-infinity)
      | inr dated ↦ rw (set, dated) (one _ _ (Adds-quoted "VALID UNTIL " a.valid_until refl))
    ]
  ]

  Adds-syslog_access :
      (a : UserAttributes)
      → is_without b'\'' a.syslog_access ≡ true
      → Adds
          (if a.syslog_access == ""
            then (if a.superuser then "SYSLOG ACCESS UNRESTRICTED" else "SYSLOG ACCESS RESTRICTED")
            else "SYSLOG ACCESS " <> a.syslog_access)
          []
  Adds-syslog_access a h = elim (Bool-cases (a.syslog_access == "")) [
    | inr set ↦
        rw set (Adds-append _ _ [] [] (words "SYSLOG ACCESS " refl) (words a.syslog_access h))
    | inl unset ↦ elim (Bool-cases a.superuser) [
      | inl super ↦ rw (unset, super) (words "SYSLOG ACCESS UNRESTRICTED" refl)
      | inr regular ↦ rw (unset, regular) (words "SYSLOG ACCESS RESTRICTED" refl)
    ]
  ]

  AddsAll-string_options :
      (a : UserAttributes)
      → is_without b'\'' a.syslog_access ≡ true
      → AddsAll (string_options env a) (user_texts a)
  unfolding string_options
  AddsAll-string_options a h = AddsAll.next _ _ _ _ (Adds-password a) (
      subst (AddsAll _) (append-nil _)
        (AddsAll-append _ _ _ [] (AddsAll-valid_until a) (one _ [] (Adds-syslog_access a h))))

  Adds-number :
      (word : String) (z : ℤ) → is_without b'\'' word ≡ true → Adds (word <> show_int z) []
  Adds-number word z h =
      Adds-append word _ [] [] (words word h)
        (Adds-words (show_int z) (Lacks-show_int b'\'' z refl refl))

  AddsAll-int_options : (a : UserAttributes) → AddsAll (int_options env a) []
  unfolding int_options
  AddsAll-int_options a =
      AddsAll.next _ _ [] [] (Adds-number "CONNECTION LIMIT " a.connection_limit refl)
        (elim (Bool-cases (int_eq a.session_timeout (pos 0))) [
          | inl unset ↦ rw unset AddsAll.done
          | inr set ↦ rw set (one _ [] (Adds-number "SESSION TIMEOUT " a.session_timeout refl))
        ])

  Adds-flag :
      (b : Bool) (s t : String)
      → is_without b'\'' s ≡ true
      → is_without b'\'' t ≡ true
      → Adds (if b then s else t) []
  Adds-flag true s t h k = words s h
  Adds-flag false s t h k = words t k

  AddsAll-bool_options : (a : UserAttributes) → AddsAll (bool_options env a) []
  unfolding bool_options
  AddsAll-bool_options a =
      AddsAll.next _ _ [] [] (Adds-flag a.superuser "CREATEUSER" "NOCREATEUSER" refl refl)
        (one _ [] (Adds-flag a.create_database "CREATEDB" "NOCREATEDB" refl refl))

  AddsAll-options :
      (a : UserAttributes)
      → is_without b'\'' a.syslog_access ≡ true
      → AddsAll (string_options env a ++ (int_options env a ++ bool_options env a)) (user_texts a)
  AddsAll-options a h = subst (AddsAll _) (append-nil (user_texts a)) (
      AddsAll-append _ _ (user_texts a) [] (AddsAll-string_options a h)
        (AddsAll-append _ _ [] [] (AddsAll-int_options a) (AddsAll-bool_options a)))

  -- A statement about a user whose quoted name has no quote of literals.
  Adds-about :
      (verb name between rest : String) (found : List String)
      → is_without b'\'' verb ≡ true
      → is_without b'\'' (env.quote_identifier name) ≡ true
      → is_without b'\'' between ≡ true
      → Adds rest found
      → Adds (verb <> (env.quote_identifier name <> (between <> rest))) found
  Adds-about verb name between rest found h q k a = Adds-append verb _ [] found (words verb h) (
      Adds-append (env.quote_identifier name) _ [] found (words (env.quote_identifier name) q)
        (Adds-append between rest [] found (words between k) a))

  -- Whatever characters the password and the expiry of a user have, if its quoted name and its syslog
  -- access have no single quote: the database reads the statements that create the user, and that
  -- change its password and its expiry, with exactly these texts as the literals, the ones that are
  -- set, and with `infinity` in lower case.
  pub literals-user_queries :
      (a : UserAttributes)
      → is_without b'\'' (env.quote_identifier a.name) ≡ true
      → is_without b'\'' a.syslog_access ≡ true
      → (literals (create_user_query env a) ≡ some (user_texts a))
        × ((literals (password_query env a)
              ≡ some (if a.password == "" then [] else a.password ∷ []))
            × (literals (valid_until_query env a)
                ≡ some (
                    (if lower env a.valid_until == "infinity" then "infinity" else a.valid_until)
                    ∷ [])))
  unfolding create_user_query password_query valid_until_query
  literals-user_queries a q h =
      let expiry = if lower env a.valid_until == "infinity" then "infinity" else a.valid_until in
      (
        literals_of_Adds _ _ (
            Adds-about "CREATE USER " a.name " WITH " _ _ refl q refl
              (Adds-join _ _ (AddsAll-options a h))),
        (
          literals_of_Adds _ _
              (Adds-about "ALTER USER " a.name " " _ _ refl q refl (Adds-password a)),
          literals_of_Adds _ _ (
              Adds-about "ALTER USER " a.name " " _ _ refl q refl
                (Adds-quoted "VALID UNTIL " expiry refl)),
        ),
      )
