-- ===== src/External.antt =====
-- What the provider calls and does not implement: lib/pq's quoting, the Unicode tables, the sets of
-- Terraform's SDK, and the database behind `database/sql`.
use terraform_provider_redsh.Base.{
  ℕ, Char, String, Bool, true, false, not, ◌&&◌, ◌||◌, List, ◌≡◌, ◌↔◌, contains, ◌==◌,
}
use terraform_provider_redsh.Errors.{Error, Result, ok, err, is_ok}

-- The type of the Go variable that a column is scanned into.
pub data Column : Type 0 where
  text flag number : Column

abbrev pub Value : Column → Type 0
Value text = String
Value flag = Bool
Value number = ℕ

abbrev pub Cells : List Column → Type 0
Cells List.[] = Unit
Cells (List.◌∷◌ c cs) = Value c × Cells cs

-- The arguments `$1`, `$2`, … of a query; a list is `pq.Array`.
pub data Arg : Type 0 where
  str : String → Arg
  num : ℕ → Arg
  strs : List String → Arg

-- The catalogs whose access control lists are read, and whose entry in the list is meant.
pub data Catalog : Type 0 where
  databases schemas tables callables languages defaults : Catalog

pub data Grantee : Type 0 where
  user group public : Grantee

-- A SELECT with its arguments. The long ones, which look for letters in an access control list, are
-- given by the catalog, the grantee and the letters that their columns test, in order.
pub data Query : Type 0 where
  sql : String → List Arg → Query
  acl : Catalog → Grantee → String → List Arg → Query

pub record Env : Type 1 where
  -- `unicode.ToLower` and `unicode.ToUpper` off ASCII
  pub lower_table : Char → Char
  pub upper_table : Char → Char
  -- `pq.QuoteIdentifier` and `pq.QuoteLiteral`
  pub quote_identifier : String → String
  pub quote_literal : String → String
  -- a `*schema.Set` of texts stands for the list that its `List()` returns
  pub set_add : String → List String → List String
  pub difference : List String → List String → List String
  pub set_equal : List String → List String → Bool
  -- the database, and a transaction on it
  pub State : Type 0
  pub Session : Type 0
  pub connect : State → Result (Unit {0})
  pub begin : State → Result Session
  pub exec : String → Session → Result (Unit {0}) × Session
  pub commit : Session → Result (Unit {0}) × State
  pub rollback : Session → State
  -- each row is scanned, or fails to
  pub query : (cols : List Column) → Query → Session → Result (List (Result (Cells cols)))
  pub exec_db : String → State → Result (Unit {0}) × State
  pub query_db : (cols : List Column) → Query → State → Result (List (Result (Cells cols)))

-- A transaction is undone by a rollback and by a commit that fails.
pub record IsTransactional (env : Env) : Type 0 where
  pub base : env.Session → env.State
  pub base-begin : (s : env.State) (x : env.Session) → env.begin s ≡ ok x → base x ≡ s
  pub base-exec : (q : String) (x : env.Session) → base (env.exec q x).1 ≡ base x
  pub base-rollback : (x : env.Session) → env.rollback x ≡ base x
  pub base-commit :
      (x : env.Session) (e : Error) → (env.commit x).0 ≡ err e → (env.commit x).1 ≡ base x

-- The commit of a transaction in which no statement was sent changes nothing.
pub record HasIdleCommit (env : Env) : Type 0 where
  pub commit-begin : (s : env.State) (x : env.Session) → env.begin s ≡ ok x → (env.commit x).1 ≡ s

-- lib/pq does not commit a transaction in which a statement has failed: `Commit` returns an error.
pub record FailsAfterError (env : Env) : Type 0 where
  pub commit-exec :
      (q : String) (x : env.Session) (e : Error)
      → (env.exec q x).0 ≡ err e
      → is_ok (env.commit (env.exec q x).1).0 ≡ false

-- Nor does the database take another statement in it: "current transaction is aborted, commands
-- ignored until end of transaction block".
pub record AbortsAfterError (env : Env) : Type 0 where
  pub exec-exec :
      (p q : String) (x : env.Session) (e : Error)
      → (env.exec q x).0 ≡ err e
      → is_ok (env.exec p (env.exec q x).1).0 ≡ false

-- The sets of the SDK.
pub record HasSets (env : Env) : Type 0 where
  pub contains-set_add :
      (a : String) (s : List String) (b : String)
      → contains (env.set_add a s) b ≡ (b == a || contains s b)
  pub contains-difference :
      (s t : List String) (a : String)
      → contains (env.difference s t) a ≡ (contains s a && not (contains t a))
  pub set_equal_iff :
      (s t : List String)
      → (env.set_equal s t ≡ true) ↔ ((a : String) → contains s a ≡ contains t a)
