-- ===== src/Lib.antt =====
-- A verification library for the Rust core of the desktop application (src-tauri/src).
--
-- Program. The application sorts local files into an archive. Paths enter by a native drop or pick
-- and are held as a drop grant (discovery/grant.rs), are consumed into a proposal of reviewed
-- sources (discovery/proposal.rs), and are identified by the SHA-256 of their content
-- (identity.rs). The facts that are cited for a reviewed file give it a canonical name (naming/),
-- and the rules of an approved profile, which match cited evidence, give it a destination in a
-- taxonomy (profiles/); both are proposed in batches. An archive plan (archive/plan.rs) binds the
-- reviewed sources to one batch of each kind and is confirmed once, by its id and its nonce. A
-- confirmed plan is carried out item by item (archive/transaction.rs): a verified copy is linked to
-- its destination in the vault, and each step of an operation is a record of a journal, chained by
-- digests, from which the vault is reconciled after an interruption. Records of the vault are
-- written by vault/records.rs. External agents use the application through grants of the desktop
-- user: agent_access/ holds the grants, opens sessions and authorizes requests, and every MCP
-- transport goes through it. At most four filesystem discoveries run at once (`DropWorkLimiter` of
-- discovery/mod.rs).
--
-- Files and code.
--   Prelude           shared tests, lists, results, texts, paths, maps, sorting, the state monad of
--                     the handlers, and the loop that draws UUIDs (`unique_proposal_id`,
--                     `unique_grant_id`, `unique_batch_id`, `unique_plan_id`)
--   Identity          identity.rs: `validate`, `from_reader`
--   Discovery         Roots: `CapabilityRoot` and the order of paths; Limiter: `DropWorkLimiter` as
--                     atomic steps of threads; Proposals: `ReviewedSourceRegistry`; DropGrants:
--                     `DropGrantRegistry`; Opening: `open_trusted_drop_root`, the instance of the
--                     argument that DropGrants and AgentAccess take for the opening of a path
--   Naming            Schema: naming/schema.rs; Normalize, Proposing: naming/normalize.rs; Batches:
--                     `NamingBatchRegistry` of naming/registry.rs
--   Profiles          Schema, Taxonomy: profiles/schema.rs; Evidence, Proposing:
--                     profiles/proposal.rs; Batches: `ClassificationBatchRegistry` of
--                     profiles/classification.rs
--   Vault             Records: vault/records.rs
--   Archive           Plans: `ArchivePlanRegistry` of archive/plan.rs. The rest is
--                     archive/transaction.rs: Operations has the records, their digests, their
--                     validation and the audit of a stream of them; Steps and Transaction the calls
--                     of the vault and `transition_required`; Commit `execute_operation`,
--                     `commit_one` and `commit_plan_with_faults`; Journal the records that a
--                     sequence of transitions writes; Recovery `reconcile_vault`, with
--                     `latest_operation_records` in Listing; Originals the registered originals
--   AgentAccess       Schema, Token: agent_access/schema.rs; Store: agent_access/store.rs; State,
--                     Authority: agent_access/authority.rs, with one function for each method of
--                     `AgentAccessAuthority`. Authority.Calls has sequences of calls,
--                     Authority.Changes the changes that the calls make
--   */Scenarios, */Witnesses, */Refusals have runs at concrete inputs
--
-- How state is modelled. A method that holds a lock is one step on the locked value: `Exec S E A`
-- takes the state to a result and the state, which stays written when an error follows. The disk of
-- the agent store is the parsed configuration file and the list of audit events. An archive
-- operation runs on a `Run`: the state of the vault's directory, the record of the operation, and
-- whether the target is exposed. A loop over a collection is a recursion on it. The only loop
-- without a bound in the source draws UUIDs until one is new: its fuel is the size of the map, which
-- is enough when the draws differ. The digits of a sequence number are computed on a fuel of ten,
-- the number of digits of a `u32`. Texts are lists of Unicode scalar values and their length in
-- bytes is that of UTF-8. An `Instant` or a `SystemTime` is a number of nanoseconds, without the
-- upper bound at which Rust would panic; `u64` and `u32` overflows that the source checks are
-- checked. Paths are compared and ordered as their texts.
--
-- Parameters. SHA-256, URL parsing, the Unicode tables, random bytes, UUIDs, the clock,
-- `Path::is_absolute`, the opening of paths and the outcomes of file operations are arguments. The
-- directory of a vault is a `Platform`: a state and the calls of cap_std on it, each of which may
-- fail in any state. serde_json is a `Codec` for each type of record, collected in `Formats` with
-- the texts of errors; the reads of a source are a `SourceAccess`. `operation_is_undone` of
-- archive/undo.rs and the listing of the journal's directory are arguments of the recovery. The
-- maps of the recovery are gone through in the order in which their entries came.
--
-- Not modelled: a poisoned lock, JSON text, file permissions, the walk over directories, archive/undo.rs,
-- the authorities of vault/mod.rs, semantic classification and the rest of profiles/, the other
-- modules of src-tauri/src (cleanup, graph, knowledge, model_runtime, mcp_transport), the user
-- interface and the scripts.
pub mod AgentAccess
pub mod Archive
pub mod Discovery
pub mod Identity
pub mod Naming
pub mod Prelude
pub mod Profiles
pub mod Vault
