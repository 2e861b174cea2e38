-- ===== src/Lib.antt =====
-- The verification library of OurSay, a civic record that is settled in blocks on an append-only
-- ledger and published so that anyone can check it without the platform.
--
-- The program. A user joins a thread under a persona, a key that stands for the user there. The
-- record service (public-record/src/record.ts) takes envelopes that a persona or a device signed:
-- it checks the signature, the bindings of the platform (identity/), the rules of the type
-- (schema/) and of the jurisdiction, and that a vote, a signature or a reaction is the only one of
-- its user on its parent, by a nullifier. An accepted transaction is stored privately with its
-- plaintext (private/store.ts) and queued. The settler
-- (ledger/settler.ts) takes the queue of one chain in order, commits the envelopes to immudb
-- (ledger/pgwire.connector.ts) and writes a block header with the Merkle root over them and a
-- folded tip. The publisher (anchor/publisher.ts) replicates settled blocks to targets as bundles,
-- which the assembler (anchor/assembler.ts) builds from the private store; the auditor
-- (anchor/verify.ts) checks blocks and chains offline. The worker (worker/settlement-worker.ts)
-- schedules this. Jurisdictions (jurisdiction.ts, governance.ts) say who may do what, and
-- api/src/services/gate.service.ts enforces it.
--
-- The files.
--   Base: the shared names, lists and options over the native numbers, texts.
--   Crypto/Hash: the hash functions and encodings of `@noble/hashes` as an interface, `Hasher`,
--     with the laws `Lawful` that their documentation gives; `Collides` says that an input
--     of one list and a different one of another have one digest, and the theorems name the lists:
--     what the code hashes in the one place and in the other. Crypto/Toy is a hasher that can be
--     run, for the examples.
--   Crypto/Merkle: crypto/merkle.ts. Crypto/Merkle/Inputs lists what it hashes. Crypto/Canonical:
--     crypto/commitment.ts, with JSON as a data type and the serialiser as the interface `Codec`.
--   Anchor/Record, Anchor/Tip, Anchor/Verify: anchor/types.ts and anchor/verify.ts.
--   Anchor/Assemble, Anchor/Publish: assembler.ts, and publisher.ts with a file target, target.ts
--     and file.target.ts.
--   Ledger/Store, Ledger/Connector, Ledger/Settler: the pool of private/store.ts, the two tables
--     of pgwire.connector.ts, and settler.ts, each as a function from state to state.
--   Record/Append, Record/Entity: ledger/chain.ts with `appendTxAndEnqueue` of private/store.ts,
--     and verify.ts. Account/Otp: api/src/services/otp.service.ts over its tables.
--     Record/Entity/Erased is about `erase` of the store.
--   Schema/Types, Schema/Content: schema/types.ts, schema/content.ts and the package
--     content-limits (src/index.ts),
--     with the payloads of platform operations.
--   Identity/Curve: the signature schemes and the functions of the runtime as an interface.
--     Identity/Envelope: envelope.ts, webauthn.ts and binding.ts; Identity/Platform and
--     Identity/PlatformOps: what the platform signs and an administrator asks for.
--     Identity/Tables: the tables of keys of private/store.ts; Identity/Persona:
--     `ensureThreadPersona`.
--   Service: record.ts. Service/State reads the rows, Service/Config has the settings and the
--     state, Service/Validate the rules that signed and unsigned calls share, Service/Signed
--     `appendSigned`, Service/Ops `appendPlatformOps`, Service/Unsigned the calls without a
--     signature. Service/Reach has a call of the service as a data type and the states that calls
--     reach; Service/Jurisdiction is `resolveThreadJurisdiction`, and Service/Tally the counts of
--     the signatures of a petition and of the votes of a poll (schema/postgres.sql.ts).
--     Service/Accepted says which row an accepted call adds. The other files prove what holds in
--     every state that is reached.
--   Worker: `computeNextWakeMs`. Policy: jurisdiction.ts, governance.ts and gate.service.ts.
--   Encode/Base59: encode/src/base59.ts.
-- Names are those of the source in snake case: `settleBlock` is `settle_block`. A definition that
-- returns `Option` is a call that may throw, and `none` is the exception.
--
-- State. A table is the list of its rows. The rows of the store stand in the order of `seq`; the
-- blocks of the ledger and the bundles of a target stand newest first. A numeric column and a time
-- in milliseconds is a natural number. Calls do not overlap: each is one step from state to state.
-- For a settler this is what the source demands, one for each chain; for the record service and the
-- joins it is an assumption of the model, and what holds in every state that calls reach is said of
-- calls one after another. The ids of transactions and entities are texts, taken in the spelling in
-- which the database prints a UUID; the parent of a nullifier attestation is a text in the source,
-- too.
--
-- Fuel. The loops over the levels of a Merkle tree run on the number of leaves, the loop of
-- `settleBlock` on the number of rows of the store and one more, `encodeBase59` on the number
-- itself, the climbs of `resolveRoot` and `newCommentDepth` on the number of rows and one more,
-- which is enough where a parent is stored before the entities under it. A level of two or more
-- nodes has a smaller one above it, each round of the settler that goes on marks a row as sent,
-- and a number of one or more is above its 59th part. The retries run on the two limits and one
-- more, or without limits on the round in which the ledger recovers.
--
-- Not modelled: the signature schemes and the derivation of keys, which are parameters, the
-- projection of threads, SQL and HTTP, the EVM target, timers, the web application
-- and the site. How far the append of a block came is an argument of `settle_block`; its retries
-- are modelled apart, in Ledger/Settler/Retry.
pub mod Base
pub mod Account
pub mod Anchor
pub mod Crypto
pub mod Encode
pub mod Identity
pub mod Ledger
pub mod Policy
pub mod Record
pub mod Schema
pub mod Service
pub mod Worker
