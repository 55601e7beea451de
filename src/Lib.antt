-- ===== src/Lib.antt =====
-- The Exais vector store: embedding of texts, chunking, retrieval context, choice of an embedding
-- profile, API keys, rate limits and idempotency, the life of vector stores, the jobs of the worker and
-- the clean-up of indexes, modelled from packages/svs_common/svs_common and apps/worker.
--
-- The parts and how they interact. A request is authenticated by a key (auth.py), counted against a
-- limit (request_controls.py), and carried out. Ingestion chooses an embedding profile
-- (vectorization_router.py), cuts the content into chunks (chunking.py) and embeds them in batches
-- (providers.py); a search embeds the query, ranks chunks and adds context around the hits
-- (retrieval.py), checked against the scope of the principal (security.py). A vector store is created,
-- used, changed, deleted or swept when it is due (vector_store_repo.py, maintenance.py); what leaves
-- the search is queued for the worker (apps/worker), which removes it from the indexes
-- (index_cleanup.py). A conversation with an expert is a session of one caller
-- (expert_sessions.py), whose feedback and memory are cleaned before they are stored (security.py).
--
-- Files.
--   Prelude        what the others share: lists over the native numbers, tests, texts as lists of code
--                  points (Prelude/Text), results (Prelude/Result), stateful calls that may fail
--                  (Prelude/Exec), the order of lists by length (Prelude/Order).
--   Embedding      providers.py. Plan is plan_embedding_batches; Slots is ordered_batch_vectors; Send is
--                  _send_embedding_batch and embed_in_order; Retry is post_embedding_with_retry with
--                  its deadline, its cap on timeouts and Retry-After.
--   Chunking       chunking.py. Words is str.split and ' '.join; Split is split_oversized.
--   Retrieval      retrieval.py. Chunk is ChunkRecord and chunk_allowed_by_scope (security.py);
--                  Context is _expand_context_neighbors after its query, and _contextualize_chunk;
--                  Sections is _expand_context_parent_sections, likewise; Merge is
--                  _merge_context_expansions.
--   Routing        vectorization_router.py: build_ingestion_plan with _privacy_allowed and
--                  _expand_profile_candidates, and resolve_embedding_profile (model_registry.py).
--   Auth           auth.py. Scopes is principal_has_scope and the checks of a delegation; Keys is
--                  create_api_key, revoke_api_key and resolve_api_key_principal over tables as lists;
--                  Keys/Steps is the relation of the calls that return; Users is create_or_get_user and
--                  deactivate_user of users.py over the same tables.
--   RequestControls  request_controls.py: the counters of a minute and the stored responses.
--   Worker         apps/worker/svs_worker/main.py. claim, perform and settle are the parts of
--                  process_once, run_worker is the loop of main; Claimed, Drained, Ended, Counts and
--                  Batches are its proofs, Dispatch a rule for the four handlers.
--   Metadata       openai_metadata.py; Metadata/Requests is _validate_vector_store_expires_after and
--                  validate_openai_chunking_strategy of schemas.py.
--   VectorStores   vector_store_repo.py over the tables of VectorStores/Rows. Policy is the expiry in
--                  Python and in SQL; Rendered is the response; Changes is update and delete; Listing
--                  is list.
--   Interaction    security.py: sanitize_expert_interaction_data. Keys is the names that may hold a
--                  secret; Guards is output_guard_text (openai_compat.py) and the merge of its metadata.
--   Experts        expert_sessions.py over the tables of Experts/Rows, those of
--                  migrations/versions/003_expert_conversation_sessions.py: the recording of messages,
--                  tool calls and retrieval runs; Sessions is create_or_resume_expert_session and
--                  get_expert_session; Forks is fork_expert_session; Feedback is record_expert_feedback;
--                  Memory and Candidates are the memory events. Changes says what one call may do to
--                  the tables, and Changes/Within that it does no more.
--   IndexCleanup   index_cleanup.py: enqueue_purge_stale_vectors and _select_rows; Deletes is
--                  _delete_rows and the three calls of it.
--   Maintenance    maintenance.py: purge_stale_vectors and sweep_expired_vector_stores.
--   Lifecycle      the calls on vector stores and the clean-up as one step relation, in any order.
--   Upkeep         the worker whose clean-up handlers are those of Maintenance, and whose ingestion queues
--                  the purge of the versions that a document leaves behind (ingestion.py); the rest
--                  of ingest_now is an argument there.
-- The modules below a component hold its lemmas and theorems; those called Examples hold concrete
-- runs.
--
-- What is a parameter. The endpoint that embeds a batch (`send`), the HTTP client with its clocks,
-- its random pick and its sleep, the digest of a key, and the settings' answer on whether a provider
-- is configured, the handlers of the worker that are not modelled, Qdrant and OpenSearch as services
-- that count what they delete or fail, the two regular expressions on metadata keys, the rules of the output
-- guard and the pattern of a citation marker, json.dumps, the ids of new_id, and what int() and
-- PostgreSQL read as a count of days where it is no integer. Where a theorem needs something of them,
-- it is a hypothesis: an endpoint that answers in order, a clock that never goes back. Rows that a query returns are arguments, whatever they are.
--
-- Numbers. The times of vector stores are in microseconds, shown in seconds as the code
-- shows them; other times are in ticks of any length. Token counts, levels and limits are natural numbers, a confidence
-- is a number of millionths, scores of the router are tenths of a point, what was added and what was taken off.
--
-- Loops. The bisection of a batch recurses on the length of the list of texts (Acc), so that it needs
-- no fuel. The retry loop counts its attempts down from max(1, max_attempts). The windows of words
-- recurse on fuel, one unit for each word: each pass moves `start` by one at least. The worker runs for a
-- number of rounds: the attempts that are left, and what its handlers may still queue, are enough, where a
-- type of job may have an allowance for what each of its runs queues.
--
-- The tables. They are lists of rows; an update by an id changes the row of that id, which is a
-- primary key. Calls follow each other: what two transactions do at the same time is not modelled.
--
-- What is not modelled. The HTTP routes, the SQL text with its row-level security, the adapters of
-- Qdrant, OpenSearch and the object store, the vendor classes around one POST each, regular
-- expressions and parsers, the accounting of an expert's turn and the engine that calls the models,
-- the foreign keys of the session tables and the keys of a row recorded under a new id, which only refuse
-- rows, ingestion but for its last purge (so that no call of Lifecycle adds a chunk), reindexing, dates and
-- counts of days out of the range of PostgreSQL, and the applications other than the worker, of
-- which the API cancels jobs and batches.
pub mod Prelude
pub mod Auth
pub mod Chunking
pub mod Embedding
pub mod Experts
pub mod IndexCleanup
pub mod Interaction
pub mod Lifecycle
pub mod Maintenance
pub mod Metadata
pub mod RequestControls
pub mod Retrieval
pub mod Routing
pub mod Upkeep
pub mod VectorStores
pub mod Worker
