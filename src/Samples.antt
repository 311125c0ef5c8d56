-- ===== src/Samples.antt =====
-- A concrete database, quoting and sets, at which the theorems are applied: a state is the list of
-- the statements that were committed, and a query has one row of fixed cells.
use terraform_provider_redsh.External.{AbortsAfterError}
use terraform_provider_redsh.Base.{
  if◌then◌else◌, String, ◌<>◌, Bool, true, false, not, ◌&&◌, List, [], ◌∷◌, ◌++◌, all, keep,
  contains, contains-keep, ◌≡◌, ◌↔◌, refl, arith, Bool-cases, inl, inr, sym,
}
use terraform_provider_redsh.Strings.{double_char}
use terraform_provider_redsh.Errors.{ok, err, pq, plain}
use terraform_provider_redsh.External.{
  Column, text, flag, number, Value, Cells, Env, IsTransactional, HasSets, HasIdleCommit,
  FailsAfterError,
}
use terraform_provider_redsh.Effects.Sends.{session_after}
use terraform_provider_redsh.Effects.Accepts.{Accepted, Takes}
use terraform_provider_redsh.Helpers.Privileges.{all-contains, all_of_contains}

abbrev default_value : (c : Column) → Value c
default_value text = "t"
default_value flag = true
default_value number = 7

abbrev pub default_cells : (cs : List Column) → Cells cs
default_cells [] = tt
default_cells (c ∷ cs) = (default_value c, default_cells cs)

abbrev negative_value : (c : Column) → Value c
negative_value text = ""
negative_value flag = false
negative_value number = 0

abbrev negative_cells : (cs : List Column) → Cells cs
negative_cells [] = tt
negative_cells (c ∷ cs) = (negative_value c, negative_cells cs)

abbrev pub quoted : String → String
quoted s = "\"" <> (double_char b'"' s <> "\"")

abbrev same_elements : List String → List String → Bool
same_elements s t = all (contains t) s && all (contains s) t

abbrev pub sample : Env
sample = record {
  lower_table = λ c. c;
  upper_table = λ c. c;
  quote_identifier = quoted;
  quote_literal = λ s. "'" <> (double_char b'\'' s <> "'");
  set_add = λ a s. a ∷ s;
  difference = λ s t. keep (λ a. not (contains t a)) s;
  set_equal = same_elements;
  State = List String;
  Session = List String × List String;
  connect = λ s. ok tt;
  begin = λ s. ok (s, s);
  exec = λ q x. (ok tt, (x.0, x.1 ++ (q ∷ [])));
  commit = λ x. (ok tt, x.1);
  rollback = λ x. x.0;
  query = λ cols q x. ok (ok (default_cells cols) ∷ []);
  exec_db = λ q s. (ok tt, s ++ (q ∷ []));
  query_db = λ cols q s. ok (ok (default_cells cols) ∷ []);
}

pub sample-IsTransactional : IsTransactional sample
sample-IsTransactional = record {
  base = λ x. x.0;
  base-begin = λ s x e. cc;
  base-exec = λ q x. refl;
  base-rollback = λ x. refl;
  base-commit = λ x e h. absurd (ground arith);
}

same_elements_iff :
    (s t : List String) → (same_elements s t ≡ true) ↔ ((a : String) → contains s a ≡ contains t a)
same_elements_iff s t = (
  λ h a. elim (Bool-cases (contains s a)) [
    | inl c ↦ rw c (sym (all-contains (contains t) s a (ground arith) c))
    | inr n ↦ elim (Bool-cases (contains t a)) [
      | inl c ↦ cc (all-contains (contains s) t a (ground arith) c)
      | inr m ↦ rw (n, m)
    ]
  ],
  λ h. ground (
    arith,
    all_of_contains (contains t) s (λ a c. rw (← h a) c),
    all_of_contains (contains s) t (λ a c. rw (h a) c),
  ),
)

pub sample-HasSets : HasSets sample
sample-HasSets = record {
  contains-set_add = λ a s b. refl;
  contains-difference = λ s t a. ground (arith, contains-keep (λ b. not (contains t b)) s a);
  set_equal_iff = same_elements_iff;
}

pub sample-HasIdleCommit : HasIdleCommit sample
sample-HasIdleCommit = record { commit-begin = λ s x e. cc }

-- A database that finds no role: its answer to a test for one is false.
abbrev without_roles : Env
without_roles = record sample { query = λ cols q x. ok (ok (negative_cells cols) ∷ []) }

without_roles-IsTransactional : IsTransactional without_roles
without_roles-IsTransactional = record {
  base = λ x. x.0;
  base-begin = λ s x e. cc;
  base-exec = λ q x. refl;
  base-rollback = λ x. refl;
  base-commit = λ x e h. absurd (ground arith);
}

-- A database that refuses every statement, and every commit.
abbrev pub refusing : Env
refusing = record sample {
  exec = λ q x. (err (pq "42704" "role \"r\" does not exist"), x);
  commit = λ x. (err (plain "could not complete operation in a failed transaction"), x.0);
}

pub refusing-IsTransactional : IsTransactional refusing
refusing-IsTransactional = record {
  base = λ x. x.0;
  base-begin = λ s x e. cc;
  base-exec = λ q x. refl;
  base-rollback = λ x. refl;
  base-commit = λ x e h. refl;
}

pub refusing-FailsAfterError : FailsAfterError refusing
refusing-FailsAfterError = record { commit-exec = λ q x e h. refl }

sample-Accepted : (qs : List String) (x : sample.Session) → Accepted sample x qs
sample-Accepted [] x = tt
sample-Accepted (q ∷ qs) x = (refl, sample-Accepted qs (sample.exec q x).1)

pub sample-Takes :
    (qs : List String) (s : sample.State) → Takes sample qs s (session_after sample qs (s, s)).1
sample-Takes qs s = record {
  first = (s, s);
  connected = refl;
  begun = refl;
  accepted = sample-Accepted qs (s, s);
  committed = refl;
}

-- A database that refuses every commit.
abbrev uncommitted : Env
uncommitted = record sample { commit = λ x. (err (plain "connection lost"), x.0) }

uncommitted-IsTransactional : IsTransactional uncommitted
uncommitted-IsTransactional = record {
  base = λ x. x.0;
  base-begin = λ s x e. cc;
  base-exec = λ q x. refl;
  base-rollback = λ x. refl;
  base-commit = λ x e h. refl;
}

-- A database that refuses some statements, and after the first of them everything up to the end of
-- the transaction: a session is the state at its start, what was sent, and whether it has failed.
abbrev pub aborting : (String → Bool) → Env
aborting refused = record sample {
  Session = List String × (List String × Bool);
  begin = λ s. ok (s, (s, false));
  exec = λ q x.
      if x.1.1
      then (err (pq "25P02" "current transaction is aborted"), x)
      else if refused q
      then (err (pq "42P06" "schema is already added"), (x.0, (x.1.0, true)))
      else (ok tt, (x.0, (x.1.0 ++ (q ∷ []), false)));
  commit = λ x.
      if x.1.1
      then (err (plain "could not complete operation in a failed transaction"), x.0)
      else (ok tt, x.1.0);
  rollback = λ x. x.0;
  query = λ cols q x. ok (ok (default_cells cols) ∷ []);
}

module _ (refused : String → Bool) where
  pub aborting-IsTransactional : IsTransactional (aborting refused)
  aborting-IsTransactional = record {
    base = λ x. x.0;
    base-begin = λ s x e. cc;
    base-exec = λ q x. ground arith;
    base-rollback = λ x. refl;
    base-commit = λ x e h. ground arith;
  }

  pub aborting-HasIdleCommit : HasIdleCommit (aborting refused)
  aborting-HasIdleCommit = record { commit-begin = λ s x e. ground arith }

  pub aborting-FailsAfterError : FailsAfterError (aborting refused)
  aborting-FailsAfterError = record { commit-exec = λ q x e h. ground arith }

  pub aborting-AbortsAfterError : AbortsAfterError (aborting refused)
  aborting-AbortsAfterError = record { exec-exec = λ p q x e h. ground arith }
