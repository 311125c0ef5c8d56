-- ===== src/Lib.antt =====
-- The handlers of the Redshift provider for Terraform (redshift/): what each of them sends to the
-- database, when, and what is left if it fails on the way.
--
-- Parts. Terraform calls a handler (create, read, update, delete) of a resource with the resource's
-- data. A handler opens a transaction (startTransaction), sends statements, commits, and defers a
-- rollback (deferredRollback); it then reads the result back outside the transaction. Some handlers
-- are run by ResourceRetryOnPQErrors, which repeats them. The files:
--   * Errors, Effects, External: Go's error values; the state that a handler works on, that is the
--     database, the open transaction, the time slept and the resource's data; and the record `Env` of
--     what the provider calls and does not implement: lib/pq's quoting, the sets of Terraform's SDK,
--     the letters beyond ASCII, and the database behind database/sql. `Env` is a parameter everywhere.
--     Its laws are records of their own, assumed where a theorem needs them: IsTransactional (a
--     rollback, and a commit that fails, restore the state at the start), HasIdleCommit,
--     FailsAfterError, AbortsAfterError (no statement succeeds after one that failed), HasSets. Smaller
--     parameters are Drivers and Aws (the drivers and the AWS client, for the configuration) and
--     SdkChecks (the checks of Terraform's SDK).
--   * Effects/Script, Effects/Atomic, Effects/Keeps, Effects/Finish, Effects/Sends, Effects/ReadOnly,
--     Effects/Accepts, Effects/Aborted: what it means that an action sends a list of statements, that a
--     handler is all or nothing, and that the database takes what it sends or has aborted, with a lemma
--     for each way of putting actions together.
--   * Helpers: redshift/helpers.go. Its children have the quoting of literals, the retry, and the
--     check of privileges; Helpers/SplitCsv and Helpers/Rounds are about splitCsvAndTrim and the bounds of
--     the retry, and Helpers/Literals about the literals of a whole statement.
--   * Grant: redshift/resource_redshift_grant.go; Grant/Read has the reads, Grant/Handlers the other
--     handlers. Create is also update.
--   * Group and GroupMembership: redshift/resource_redshift_group.go and
--     redshift/resource_redshift_group_membership.go; Cleanup has the loop that the deletes of groups
--     and of users share.
--   * Role and RoleGrant: redshift/resource_redshift_role.go, redshift/resource_redshift_role_grant.go;
--     Role/Outcomes is about every branch of a role's handlers.
--   * User: redshift/resource_redshift_user.go; User/Timestamps has validateAndAdjustValidUntil,
--     and User/Literals is about the literals of the statements.
--   * DefaultPrivileges: redshift/resource_redshift_default_privileges.go.
--   * Database: redshift/resource_redshift_database.go; Database/Create is about the create from a
--     datashare, which is half inside and half outside of a transaction.
--   * Schema: the attributes and statements of redshift/resource_redshift_schema.go; Schema/Read has
--     the reads, Schema/Handlers the other handlers; Schema/Retried is about the deletion with its
--     retries, and Schema/Roles and Schema/Literals about the sources of external schemas.
--   * Datashare and DatasharePrivilege: redshift/resource_redshift_datashare.go and
--     redshift/resource_redshift_datashare_privilege.go; Datashare/Handlers has the handlers that
--     change a share.
--   * DataSources: the five data sources, redshift/data_source_redshift_group.go,
--     data_source_redshift_user.go, data_source_redshift_namespace.go,
--     data_source_redshift_database.go and data_source_redshift_schema.go.
--   * Validation: redshift/validation.go and redshift/custom_diff.go; User/Diff has the checks of a
--     user's plan.
--   * Config: the check for Redshift Serverless of redshift/config.go, as a function of its cache and of
--     what the two queries answer. Config/Settings: the configuration of redshift/provider.go,
--     redshift/config_pq_proxy.go and redshift/config_data_api.go. Config/Registry: the registry of
--     connections of redshift/config.go, as a state that connecting takes and returns;
--     Config/Registry/Reach has the sequences of such steps.
--   * Base, Strings and its children: shared names, and the functions of Go's packages strings, strconv,
--     fmt, net/url and encoding/csv that the provider calls. Samples and Tests: concrete databases, and
--     the theorems at concrete inputs.
--
-- Correspondence. A function keeps its name in snake case. A part of a handler that follows a commit
-- or stands in a branch has a name of its own (apply_create, after_commit). A handler takes the world
-- and returns a result and the world, also on the error path. A text attribute that is not set is
-- empty, a set is the list that its List() returns, and d.HasChange compares the old and the new
-- value, which the data have both. The rows of a query come with the error that the scan of each row
-- would give.
--
-- Bounds. The loop of the retry has ten rounds, as in the source; every other loop is by recursion on
-- the rows, names or statements that it runs over. Numbers are printed by division by ten, and
-- strconv.Atoi refuses what is outside of 64 bits.
--
-- Not modelled. The long SELECTs on access control lists are given by the catalog, the kind of grantee
-- and the letters that they test, and the query for what a user owns by its arguments; other queries
-- are in full, with each run of white space as one space. The texts of errors keep their fixed parts,
-- and a quoted text in them (%q) stands between plain quotes. Logging, contexts, the schemas and the
-- import hooks of the SDK, the locks, the limits of the connection pool, Close, the dialing of
-- redshift/proxy_driver.go and the entry point main.go are left out. A panic of IsServerless ends a
-- read as an error does. The deletion of a user takes the name that GetUsername has cached, and does
-- not store the one that it reads; Config/Registry has GetUsername with the cache that it fills. The
-- Data API is connected to without transactions
-- (transactionMode=non-transactional), so IsTransactional is a hypothesis for the connections by
-- lib/pq, and nothing is claimed of the Data API by the theorems that assume it.
pub mod Base
pub mod Strings
pub mod Errors
pub mod External
pub mod Effects
pub mod Helpers
pub mod Grant
pub mod Cleanup
pub mod Group
pub mod GroupMembership
pub mod RoleGrant
pub mod Role
pub mod User
pub mod DefaultPrivileges
pub mod Config
pub mod Datashare
pub mod Validation
pub mod Database
pub mod Schema
pub mod DataSources
pub mod DatasharePrivilege
pub mod Samples
pub mod Tests
