-- ===== src/Lib.antt =====
-- Lumengate: the confidential token client, the passport, and the issuer's service.
--
-- The application keeps, for each account, openings (value and blinding) of the two Pedersen
-- commitments that the token contract stores: the spendable and the receiving balance. It builds the
-- witnesses of the zero-knowledge circuits that move these balances, replays the contract's events to
-- keep its openings current, and compares them with the chain. The code is that of
-- app/src/lib/confidentialToken.
--
-- - Crypto: crypto/*.ts. Field is field.ts (`frMod`, `toBytes32BE`, `randomScalar`, ...), Domain the
--   tags of constants.ts, Poseidon is poseidon2.ts over the permutation of @zkpassport/poseidon2,
--   Grumpkin is grumpkin.ts over the curve of @noble/curves, Keys is keys.ts and address.ts. The
--   permutation and the curve are parameters (`Poseidon`, `Curve`), and what the code relies on are
--   the records `PoseidonLaws` and `CurveLaws`. Grumpkin/Toy is a concrete curve that satisfies them.
-- - Witness: witness/*.ts, `buildRegisterWitness`, `buildWithdrawWitness`, `buildTransferWitness`,
--   and in Disclose `buildDiscloseSenderWitness` and `buildDiscloseRecipientWitness`. A value that
--   `randomScalar` would draw is an argument.
-- - Auditor: auditor/decrypt.ts, what an auditor reads from the events.
-- - Chain: chain/events.ts, the event types and `buildConfidentialEvent`; of chain/event-source.ts
--   `dedupeById` and, in Resolve, `hybridResolveEventRef` over the RPC and the indexer. Decode is
--   `parseEvent` over the values of the Stellar SDK, Paging `fetchEvents` over the RPC, Hybrid
--   `hybridFetchEvents` over the RPC and an indexer. The SDK's values, the RPC and the indexer are
--   parameters. Issuer is
--   chain/issuer-indexer.ts, and IssuerRows the decoder of issuer-service/lib/confidentialIndexer.js,
--   which writes the rows that it reads.
-- - Disclosure: disclosure/*.ts. The module itself has the keys, the requests and the JSON forms, Prove
--   the holder's bundles, Verify `verifyDisclosure`. The prover is a parameter, `CircuitProver`; what
--   its documentation says of an honest proof is `ProverLaws`.
-- - State: state/*.ts. Types and the store `MemoryStore`; Apply is `apply`, `decryptIncoming` and
--   `openSpendable`, on one event and on a list; Engine is the class `StateEngine`, whose methods are
--   actions on a world of the store, a count of calls and the milliseconds slept. What the chain
--   answers is a function of that count, so any sequence of answers is covered. An action that throws
--   keeps what it saved. One run of `hybridFetchEvents` is one call to the engine, and so is one read
--   of the balances; Status polls a transaction, as `waitForTransactionStatus` of app/src/lib/
--   contracts.ts does, with one call for each request. Stored is the JSON form of a state, of store.ts, and the stores of
--   browser-store.ts and json-store.ts, as a map to JSON values. Ledger is no code of the application: it
--   is the specification, what the contract stores for an account and what each operation does to it.
-- - Flow: app/src/lib/confidentialFlow.ts with ctRegistration.ts: registration, settlement, shielding,
--   merging and unshielding, as steps on a world of the engine's world, the keys and the registration
--   mark of the browser, and the transactions submitted so far. A flow is cut into the phases that its
--   progress messages name; each phase is a function. The building and the submission of a transaction
--   are one call, a parameter. Awaited says how a flow has called the engine, Sent and Taken what the
--   last transaction of a settlement and of a withdrawal is, Paid and Withdrawn the whole flows.
-- - Passport: app/src/lib/assetScope.ts, scopeNullifier.ts, credentialProof.ts, proofLifecycle.ts,
--   passportLifecycle.ts, productState.ts and passportScopeStatus.ts. Scope has the scopes and
--   `credentialForScope`, Proof the match of a proof with a credential, Lifecycle
--   `syncProofLifecycleOnChain` and `derivePassportPhase`, Steps what the product shows of a passport
--   and Rows what it shows of each scope. Spent is `readNullifierSpent` of contracts.ts. The hash
--   and the simulation of a contract's call are parameters; prover inputs are texts.
-- - Issuer: what the issuer's service makes of a wallet. Fields is issuer-service/lib/poseidonFields.js
--   with scripts/compute_revocation_root.js, Prover credentialCommitment.js and `buildProverInputs` of
--   scripts/generate_prover_toml.js, Notes noteMerkle.js, and Circuit circuits/lumengate/src/main.nr,
--   which the inputs are for. Poseidon2 and SHA-256 are parameters.
-- - Product: the application beside the client. Retry is app/src/lib/retry.ts, Amount
--   app/src/lib/assetAmount.ts.
-- - Prelude: integers over the native naturals (`bigint` is ℤ), lists, Boolean tests, results with
--   the errors that the code throws. Tests: runs at concrete inputs.
--
-- A `bigint` is unbounded, so no width is assumed. The loops are structural: over the list of events,
-- over the bytes, over the attempts left (`maxAttempts`, 40 unless set, three short waits, and 45 for
-- the status of a transaction).
-- `randomScalar` runs over the list of arrays drawn, since it may draw for ever. The digits of a
-- number n are printed by a loop on n + 1 rounds, which is more than its digits. `fetchEvents` runs on
-- fuel, one unit for each call of the RPC, since an RPC may send cursors for ever; a chain that ends is
-- given as many units as it has positions.
--
-- Not modelled: the pages and components, the network clients, the routes of the issuer's service with its
-- files and signatures, the prover, passkeys and the vendored
-- smart account kit (I/O and calls of libraries), the assembly of transactions and the messages of
-- progress, and the decoder of Goldsky's rows in chain/indexer.ts, whose source says that it guesses at
-- their form.
pub mod Prelude
pub mod Crypto
pub mod Witness
pub mod Chain
pub mod State
pub mod Disclosure
pub mod Flow
pub mod Auditor
pub mod Issuer
pub mod Passport
pub mod Product
pub mod Tests
