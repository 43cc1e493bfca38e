-- ===== src/Lib.antt =====
-- Cyberware: a governed runtime of agents that settles the runs it meters. The parts modelled here are
-- the ones that decide who is paid, who may write, and what a log proves.
--
-- * Prelude, and its children: tests, lists, integers, texts as lists of code points, equality as an
--   interface, tallies (Python dictionaries of amounts) and decimals.
-- * Settle/Money, of infra/settle/money.py: an amount is an integer number of units of 0.0001.
--   Settle/Money/Decimal has the part of Python's `decimal` that is used, Settle/Money/Split is `split`.
-- * Cwp/Chain, of infra/cwp/chainverify.py and infra/cwp/ledger.py: records linked by digests. A record
--   is the fields that the code reads and a payload. `verify_chain` walks the list, `append` extends it.
-- * Cwp/Envelope, of infra/cwp/cosign.py and infra/cwp/receipts.py: signed envelopes and receipts.
-- * Cwp/Merkle, of infra/cwp/checkpoint.py and infra/cwp/translog.py: the Merkle tree of a log and its
--   inclusion proofs.
-- * Settle/RewardLedger, of infra/settle/reward_ledger.py: a chain whose records are balanced posting
--   sets; `post`, `fund_escrow`, `release` and `balances` have the source's names.
-- * Settle/Quote and Settle/Engine, of infra/settle/quote.py and infra/settle/engine.py: a signed quote
--   is funded into its own escrow, admits a run, and is settled by a dual-signed receipt. The engine
--   calls the quotes, both write the reward ledger through `post`, and `post` appends to the chain.
-- * Cwp/Webauthn, of infra/cwp/webauthn.py, and Settle/Disputes, of infra/settle/disputes.py: approvals
--   by registered keys, and the resolution of a dispute by m of n of them, on the reward ledger.
-- * Settle/Budget, of infra/settle/budget.py, and Settle/Dust, of infra/settle/dust.py: the credits of an
--   actor on the reward ledger with the gate's decision, and the boundary to adapters that bill in cents.
-- * Cwp/Alchemy, of infra/cwp/alchemy.py, and Settle/Royalties, of infra/settle/royalties.py: the gate of
--   a publish, and the royalty that an admitted one pays through the reward ledger.
-- * Store/Lease, of infra/store/backend.py and infra/govern/lease.py: the lease of the single writer.
-- * Store/BudgetTable, of infra/store/backend.py and infra/settle/budget.py: the credits of each actor.
-- * Store/Reconcile, of infra/store/reconcile.py: the index of a run against its chain.
-- * Cwp/Workflow, of infra/cwp/workflow.py: state machines, the search for their reachable states, their
--   composition, and the run of a saga. The frontier of the search is a list with its end first.
-- * Cwp/Revocation, of infra/cwp/revocation.py, feed_tiers.py, revoke_inflight.py and keyrotation.py beside
--   it: the signed feed of what is revoked, and the gates that consult it.
-- * Govern/Principals, of infra/govern/principals.py: who a bearer is, and what an actor's scope allows.
--   Govern/SkillAcl and Govern/Orgs, of skillacl.py and orgs.py beside it: a skill's own policy of access,
--   and the organisation that a token belongs to.
-- * Cwp/Sign, of infra/cwp/sign.py, and Exec/Grant and Exec/Acl, of infra/exec/grantverify.py and
--   infra/exec/aclverify.py: signed grants with their single-use nonces, the operator's attestation of a
--   scope, and a client's proof that it holds its token.
-- * Exec/Sandbox, Exec/Mounts, Exec/Closure and Exec/Vault, of infra/exec/sandbox.py, capmanifest.py,
--   closureverify.py and vault.py beside it: the sandbox of a step as a value with its command line, its
--   mounts against a manifest, the digests of its code, and its secrets.
-- * Exec/Exod and Exec/Exod/Steps, of infra/exec/exod.py: `run_step` calls all of these in order; what a
--   request comes to is an `Outcome`, and the nonces that are spent are the `Memory`. Exec/Result, of
--   infra/exec/exodverify.py and infra/exec/exod.py: the ledger that takes the signed results.
-- * Tests, and its children: runs on concrete inputs, and the theorems applied there.
--
-- A call that may raise returns a `Result` or an `Option`. A database transaction is one function on
-- the table, and calls of several instances are lists of steps in the order of their transactions.
--
-- Parameters stand for what is not in the repository: SHA-256 (Digests, hash, key_digest), Ed25519 and
-- OpenSSL's signature check (EdVerify, PhVerify), the reading of JSON (Services, claim_of, grant_of,
-- result_of, attestation_of, proof_of), the hash and signature of approvals (Crypto), files and the run
-- of a sandboxed command (exists, Snip, runner), the engine that extracts a blueprint
-- (Blueprint, Names), and the last digit of a decimal quotient (fraction, which only orders the shares
-- of a split).
--
-- Fuel: the loops of the Merkle tree run on the number of leaves, which halves in each round, the count
-- of decimal digits on the number itself, the places of a quotient on 27 more than the divisor, and the search of a workflow on one more than the number of
-- its transitions, each of which can put one state on the frontier.
--
-- Not modelled: signing, files, sockets, threads and clocks (times are arguments); above
-- Settle/Money the 34 digits where sums raise; the parts of the program that the list above does
-- not name.
pub mod Prelude
pub mod Settle
pub mod Cwp
pub mod Store
pub mod Exec
pub mod Govern
pub mod Tests
