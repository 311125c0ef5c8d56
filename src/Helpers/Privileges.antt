-- ===== src/Helpers/Privileges.antt =====
-- Which privileges `validatePrivileges` lets through.
use terraform_provider_redsh.Base.{
  String, Bool, true, ◌&&◌, List, [], ◌∷◌, ◌++◌, all, contains, is_empty, ◌≡◌, refl, arith, inl,
  inr, Bool-cases, sym,
}
use terraform_provider_redsh.External.{Env}
use terraform_provider_redsh.Helpers.{upper, is_allowed, validate_privileges}

pub all-append {ℓ} :
    {A : Type ℓ} (p : A → Bool) (xs ys : List A) → all p (xs ++ ys) ≡ (all p xs && all p ys)
all-append p [] ys = refl
all-append p (x ∷ xs) ys = ground (arith, all-append p xs ys)

pub all-contains :
    (p : String → Bool) (xs : List String) (a : String)
    → all p xs ≡ true
    → contains xs a ≡ true
    → p a ≡ true
all-contains p [] a h c = cc
all-contains p (x ∷ xs) a h c = ground (arith, all-contains p xs a)

pub all_of_contains :
    (p : String → Bool) (xs : List String)
    → ((a : String) → contains xs a ≡ true → p a ≡ true)
    → all p xs ≡ true
all_of_contains p [] h = refl
all_of_contains p (x ∷ xs) h = ground (arith, h x, all_of_contains p xs (λ a c. h a (ground arith)))

all_subset :
    (p : String → Bool) (xs ys : List String)
    → ((a : String) → contains ys a ≡ true → contains xs a ≡ true)
    → all p xs ≡ true
    → all p ys ≡ true
all_subset p xs [] h a = refl
all_subset p xs (y ∷ ys) h a =
    ground (arith, all-contains p xs y a, h y, all_subset p xs ys (λ b c. h b (ground arith)) a)

is_empty_of_subset :
    (xs ys : List String)
    → ((a : String) → contains ys a ≡ true → contains xs a ≡ true)
    → is_empty xs ≡ true
    → is_empty ys ≡ true
is_empty_of_subset xs [] h e = refl
is_empty_of_subset [] (y ∷ ys) h e = absurd (ground (arith, h y))
is_empty_of_subset (x ∷ xs) (y ∷ ys) h e = cc

module _ (env : Env) where
  validate_privileges-subset :
      (xs ys : List String) (t : String)
      → ((a : String) → contains ys a ≡ contains xs a)
      → validate_privileges env xs t ≡ true
      → validate_privileges env ys t ≡ true
  unfolding validate_privileges
  validate_privileges-subset xs ys t h v = ground (
    arith,
    all_subset (λ p. is_allowed (upper env t) (upper env p)) xs ys (λ a c. rw (← h a) c),
    is_empty_of_subset ys xs (λ a c. rw (h a) c),
  )

  -- The verdict depends on which privileges are listed, not on their order or repetition.
  validate_privileges_ext :
      (xs ys : List String) (t : String)
      → ((a : String) → contains xs a ≡ contains ys a)
      → validate_privileges env xs t ≡ validate_privileges env ys t
  validate_privileges_ext xs ys t h = elim (Bool-cases (validate_privileges env xs t)) [
    | inl v ↦ rw (v, validate_privileges-subset xs ys t (λ a. sym (h a)) v)
    | inr n ↦ elim (Bool-cases (validate_privileges env ys t)) [
      | inl v ↦ cc (validate_privileges-subset ys xs t h v)
      | inr m ↦ rw (n, m)
    ]
  ]
