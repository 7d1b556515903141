-- ===== src/Lib.antt =====
-- Vice CEO: proof-carrying business autonomy. A model of the program under app/ and its proofs.
--
-- The program takes a synthetic support event or a scheduled registry event, claims it once, runs
-- policy, and lets an action happen only under a signed, short-lived, one-use warrant or an owner's
-- decision. Every step leaves a receipt, and the trust engine judges receipts only.
--
-- Prelude, Text, Strips, Joins, Outcome, Dict, Json and Runtime are the shared base: tests, Python's
-- strings, exceptions as values, methods as functions from a state to a result and a state,
-- dictionaries, `json.dumps`, and the parameters for hashlib, hmac, datetime and base64.
--
-- Claims (app/claim_store.py): Scope has `_claim_key`, `claim_document_id` and the protocol
-- `ClaimStore` as a record of operations and laws; Memory is `InMemoryClaimStore`, Firestore is
-- `FirestoreClaimStore` over any collection with get and put; Once and Refine are about histories of
-- claims. Clients take a ClaimStore.
-- Fixtures (app/tools.py): the registered case, its digest and manifest, the simulated transition.
-- Events (app/event_contracts.py): Types has events, policy and runs, Decode the decoder and encoder,
-- Claiming `InMemoryEventClaims.claim`.
-- Warrants (app/warrant_gateway.py): Types, and Gateway with `issue_simulated_ticket_warrant`,
-- `validate_and_consume` as the checks `check_use` and then the claim, and
-- `execute_warranted_simulation`.
-- Specialists (app/specialist_protocol.py): roles, routes, handoffs.
-- Support (app/support_loop.py): `SyntheticSupportLoop.process` over two claim stores and the three
-- clock readings of a call.
-- Trust (app/trust_engine.py): `assess_synthetic_trust` as a scan of the receipts.
-- Registry (app/registry_watch.py): Types, Decode, Segments, Actions (owner decisions), Store (the
-- in-memory store over any claim store), Runs (checks and parts of a run), Briefs (generators and
-- local channels), Gemini (`GeminiRegistryBriefGenerator` after the provider's stream), Channels
-- (the SMTP and Resend channels over their transport) and Engine (`RegistryWatchEngine.process`; the
-- fetcher, the generator and the delivery of a call are fields of a Watch, and the state keeps the
-- briefs that were handed over).
-- Listing has the owner's list and its counts, Overview the owner's overview and the delivery probe,
-- Html the extractor of `_normalize_public_source_content` over the events of Python's HTML parser,
-- Sources `_registry_sources_from_environment`, Documents the snapshots of
-- `FirestoreRegistryWatchStore` and Records its runs and candidates (saved, read, queued and decided;
-- its list of candidates is not modelled), as documents of typed fields.
-- Business (app/business_actions.py): Types, and Service with replies, follow-ups and
-- `_deliver_once` over any channel.
-- Approval (app/human_approval.py): the reviewer's decision and the fixed run.
-- Twin (app/operational_twin.py) and Timeline (app/business_time_machine.py): the comparison of the
-- transitions, and the replay of the evidence that a call of the support loop leaves. Knowledge
-- (app/knowledge_packs.py): role-scoped packs. Provider: Model (app/model_configuration.py), Canary
-- (app/provider_canary.py: the claim, the receipt and the run, over the stream that the provider
-- gives), Evidence (app/provider_evidence.py: the checks of an exported log entry).
-- Http (app/fast_api_app.py): Types has what a route answers, Ingress the synthetic event routes,
-- Worker the registry watch's and the owner's routes, Demo the demo's approval, business action, canary
-- and evidence routes, Private the business actions' private routes. The environment's flags are fields
-- of a configuration; a body has the shape that the framework checked.
-- Examples: concrete inputs.
--
-- Numbers are natural numbers; times are microseconds. Loops are structural recursion, so there is no
-- fuel, but for `str(n)` in Json, whose fuel n + 1 exceeds the number of digits of n. Digests are any
-- function; where a collision matters, its absence is a hypothesis. Requests are handled one after
-- another: a Firestore transaction is one step.
--
-- Not modelled: provider input and output (Gemini, Resend, SMTP, HTTP, the Firestore client), the
-- regular expressions of app/registry_watch.py (parameters), environment factories, web pages, the
-- routes that print them, and the reports, dossiers and demos that run these parts on fixed scenarios.
pub mod Prelude
pub mod Text
pub mod Strips
pub mod Joins
pub mod Outcome
pub mod Dict
pub mod Json
pub mod Runtime
pub mod Claims
pub mod Fixtures
pub mod Events
pub mod Warrants
pub mod Specialists
pub mod Support
pub mod Trust
pub mod Registry
pub mod Business
pub mod Approval
pub mod Examples
pub mod Twin
pub mod Timeline
pub mod Knowledge
pub mod Provider
pub mod Http
