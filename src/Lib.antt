-- ===== src/Lib.antt =====
-- The fabushi backend: the extension marketplace of ai-backend, the store by which the devices of
-- an account follow one another, the policy of the device network and the enrollment of devices in
-- it, and the monetization service of the web application.
--
-- The marketplace is a number of stores on one SQLite database, put together in
-- ai-backend/src/miniapp_marketplace_http.js (createMiniAppMarketplaceRouter). A publisher claims a
-- namespace, files a release under it as a draft, binds artifacts to it and submits it; a security
-- scanner records a verdict on each artifact; a reviewer approves or rejects the release, and the
-- publisher or the reviewer may withdraw it after approval, the reviewer on a report too.
--
-- The files and what they model:
-- - Publisher, Publisher/Names, Publisher/Secrets: ai-backend/src/extension_publisher_store.js. The
--   store is the table of namespaces and the audit trail; create, update, propose_transfer,
--   accept_transfer and cancel_transfer are the methods of those names, owned is #owned, write an
--   update with its audit row. Publisher/Calls has a request to the store and the automaton of the
--   ownership of a namespace; Publisher/Ownership and Publisher/Handover have the theorems.
-- - Identity, Identity/Laws: releaseKey, component and version of the stores, on texts of UTF-16
--   code units (Text), with the patterns as functions (Text/Pattern, Text/Trim).
-- - Release/Rows, Release/Drafts, Release/Reviews: ai-backend/src/extension_release_store.js.
--   createDraft, submit, importReviewed, review, yank and revoke are functions of the same names.
--   Release/Effects says what a call that succeeds has tested and written. Release/Versions is the
--   order of versions (parseSemver, comparePrerelease, compareVersions), Release/Precedence what it
--   is to be, as a relation, and Release/Written which texts write a version, with the theorem.
-- - Artifact/Rows, Artifact/Names, Artifact/Bindings, Artifact/Uploads, Artifact/Scans:
--   ai-backend/src/extension_artifact_store.js. upload leaves its content-addressed file behind
--   when the row is refused, so it returns the state along with the error. Artifact/Listing,
--   Artifact/Effects and Artifact/Frozen have the lemmas on the listing of a release.
-- - Moderation/Rows, Moderation/Names, Moderation/Reports, Moderation/Appeals:
--   ai-backend/src/extension_moderation_store.js. resolveReport withdraws the release in a
--   transaction of its own, so it returns the releases and the cases along with the error.
--   Moderation/Resolution has the theorems.
-- - Listings: listOwned, the three audit calls and get, which only read.
-- - Sync/Cursor, Sync/Log: the event log of ai-backend/src/account_sync_store.js (#appendEvent,
--   #prune, recordEvent, currentCursor, sync); the newest event is the head of the list. A reply in
--   the mode snapshot has its reason and cursor, without the tables. Sync/Retention, Sync/Pages,
--   Sync/Drain and Sync/Cursor/Laws have the theorems; drain is a client, which is not in the
--   repository: it says whether it has finished, was turned away or has run out of fuel.
-- - Signing/Rows, Signing/Payload, Signing/Keys, Signing/Releases:
--   ai-backend/src/extension_signing_store.js. The rows are the trust keys and the signatures;
--   register_signer is #registerConfiguredSigner, start the constructor, which the process runs
--   again with the signer of its environment whenever it starts. canonical_payload is the text that
--   is signed, printed by Json/Print as JSON.stringify prints it. Signing/Trust has the theorems.
-- - Published: what the stores hand one another of an artifact and of a signature.
-- - Sync/Names, Sync/Store, Sync/Cloud, Sync/Agents: the cloud storage of mini apps (setCloudValue,
--   deleteCloudValue, getCloudValue) and the objects of agents (putAgentObject, getAgentObject,
--   deleteAgentObject) of the same file. put_object is #putAgentObject; it calls itself for the
--   copy of a conflict, so it has fuel, two levels of it. Sync/Calls is a call of any of them and
--   the run of a history; Sync/Values is about the values, Sync/Counts and Sync/Limits about the
--   limits, Sync/Effects, Sync/Objects, Sync/Puts, Sync/Contents, Sync/Histories and Sync/Depth about
--   the objects. A value is stored as UTF-8 (stored); all other texts are kept as they are, which is
--   so of those in which every surrogate has its partner.
-- - Market: the publisher, release, artifact and signing stores together, a request to any of them
--   and the run of a history of requests. Market/Steps says what one request may do to a release,
--   to its artifacts and to its signature; Market/Lifecycle, Market/Approval, Market/Immutable and
--   Market/Signed have the theorems, with Market/Named and Market/Extends for the last.
-- - Fdn/Snapshot: fdn-network-coordinator/project-core-policy.mjs, the checks of a snapshot of a
--   cell and the policy that is built from it; Fdn/Tailnet and Fdn/Policy have the theorems,
--   and Fdn/Live says what a binding is to be.
-- - Fdn/Broker/Rows, Names, Keys, Addresses, Nodes, Calls, Starting and Completing:
--   fdn-network-coordinator/enrollment-broker.mjs, by which a device redeems a grant for a key of
--   the network and is bound to its address. The methods start and complete are cut at each await:
--   start_at and after_redeem, after_mint, after_keys are the pieces of start, complete_at and
--   after_nodes, after_bind, after_cell those of complete. A piece takes the file as it is and the
--   state that its call had read, which it writes whole. Fdn/Broker/Service runs pieces of many
--   calls (enrollment-service.mjs): run lets calls overlap as the service does, run_alone begins a
--   call only when no other is under way. Fdn/Broker/Life has the edges of an enrollment's life,
--   Fdn/Broker/Legal and its children say what a piece may do to its grant, Fdn/Broker/Sound what a
--   history may, and Fdn/Broker/Alone and Fdn/Broker/Again have the theorems.
-- - Money/Amounts, Money/Rows, Money/Ads, Money/Batches:
--   fabushi/web/src/services/monetization-platform.js, the split of an amount
--   (allocate_two_party_split), what an advertisement event costs (ad_billable_amount) and
--   recordVerifiedAdRevenue, cut where it has read the database: check is all up to its batch, post
--   the batch. Money/Histories runs checks and batches in any order, and calls on their own;
--   Money/Checks, Money/Budgets and Money/Alone have the theorems. Money/Subscriptions is
--   applySubscriptionEvent, Money/Payments syncPaymentRevenueEvent and syncSubscriptionFromPayment,
--   Money/Kept and Money/Replays have the theorems on them. Arithmetic on doubles is a parameter
--   (Doubles), exact up to 2^53-1.
-- - Code has the error codes, Json the payloads of the audit trails, Table the tables of SQLite as
--   association lists with their laws, Prelude the shared tests, lists and results.
-- - Tests: a locale, a platform and a registry to run the model with, and runs.
--
-- How the code is rendered: a method takes its store and returns the new one or the code of the
-- error that it throws, and its transaction is that one step; `this.now()` is an argument; a raw
-- argument is an optional text (null and undefined are none). The current time, the identifier of a
-- transfer (randomUUID), lower case in the locale (toLocaleLowerCase, which is taken to leave ASCII
-- lower-case letters alone), `new URL`, SHA-256 and the registry that normalises descriptors are
-- parameters, as are Ed25519, localeCompare, `Number` of a text of digits and isIP (Crypto,
-- Collation, Net). AES-256-GCM under the state key opens what it has sealed (Host); the clients of
-- Core and of Headscale may answer anything. A number of bytes is a natural number, and its bound
-- 2^53-1 is tested as in the source. Recursion is on lists, but in three places, which have fuel:
-- the decimal digits of a cursor (a number has at most as many digits as it is large), put_object
-- (a copy is made where there is none, so it is in no conflict of its own) and drain (each page but
-- the last has an event).
--
-- Not modelled: the trust feed and the fabapp manifests of the signing store, the other listings
-- that only read, the HTTP routes, the rest of the account synchronisation (installs, bots, the
-- profiles of agents), developers and payouts, and the rest of the repository (the web handlers,
-- the clients, the HTTP handler and the ingress binder of the device network, the model adapters).
-- What is left out is I/O, a call of an external service, or still to be done.
pub mod Prelude
pub mod Table
pub mod Text
pub mod Code
pub mod Fdn
pub mod Json
pub mod Publisher
pub mod Identity
pub mod Release
pub mod Artifact
pub mod Moderation
pub mod Listings
pub mod Sync
pub mod Money
pub mod Published
pub mod Signing
pub mod Market
pub mod Tests
