-- ===== src/Lib.antt =====
-- A verification library for a2a-events: the publisher of an event protocol between agents, the
-- stores it keeps its state in, the signatures of events, and the receiver at the other end.
--
-- The program (src/a2a_events): a publisher (runtime/publisher.py) appends events to a log per
-- topic (runtime/memory/event_store.py), and brings every subscription up to date from its
-- high-water mark: it reads the log in pages, matches each event with the subscription's selector
-- (selectors.py), sends a match through a transport (runtime/http_delivery.py), and records the
-- attempt, the acknowledgement and the mark (runtime/memory/subscription_store.py). What fails is
-- tried again, in place or through a retry queue (runtime/memory/retry_queue.py,
-- runtime/retry_worker.py), and dead-lettered in the end. Leases, quotas, grants (auth.py), limits
-- (limits.py) and the screening of endpoints (runtime/ssrf.py) guard the operations. An
-- event is signed over its canonical JSON with the active key of a key set (signing.py). A
-- subscriber resolves the key through the published ones (`JwksKeyResolver` of server.py) and
-- verifies, deduplicates and acknowledges what comes in (receiver.py). The stores can be kept in
-- Postgres instead (runtime/postgres). Requests reach the publisher as JSON-RPC (jsonrpc.py) or
-- through HTTP routes over it (server.py).
--
-- Files:
--   Common       texts, lists, dictionaries, Boolean tests, integers
--   Json         JSON values; Errors, Exec: exceptions as results, methods as state actions
--   ErrorObject  the second half of errors.py: the code table and the error object
--   Models       models.py; Cursor: cursor.py; Selectors: selectors.py; Limits: limits.py
--   EventStore, SubscriptionStore, RetryQueue: runtime/memory, with records of runtime/contracts.py
--   Ssrf         runtime/ssrf.py; Auth: auth.py; Pagination: pagination.py; Metrics: observability.py
--   HttpDelivery runtime/http_delivery.py
--   Postgres     runtime/postgres: Postgres/Events the event store, Postgres/Retries the retry queue,
--                Postgres/Subscriptions the subscription store, each beside what it shares with
--                memory, and Postgres/Sorting ORDER BY over rows in any order
--   JsonRpc      jsonrpc.py; Methods: methods.py; HttpBinding: the HTTP routes of server.py
--   Publisher    runtime/publisher.py: its state `World`, and below it Guards, Send, Delivery,
--                Dispatch, Lifecycle, Subscribe, and Retries with the round of runtime/retry_worker.py
--   Canonical    canonical JSON of signing.py; Signing: its signatures, Signing/Base64 their text, and
--                Signing/KeySet the key set; KeyResolver: `JwksKeyResolver` of server.py
--   AgentCard    agentcard.py: a subscriber's card, the policy it must meet, and in
--                AgentCard/Signed its signature
--   ReceiveStatus `_receive_status` of server.py; MemoryTransport: runtime/memory/transport.py
--   LeaseRenewer lease.py: the loop that renews a lease
--   Receiver     receiver.py, with its two framings in Receiver/Framing
--   Examples     a small publisher, and keys and deliveries, on which each theorem is applied
-- A definition has the name of the function it models, without a leading underscore. The files
-- below a part hold its lemmas and theorems.
--
-- State and errors: a method of the publisher is an action `World → Result A × World`; what was
-- written before a raise stays written. A method runs to its end without another task in between;
-- subscriptions are objects that the store shares with its callers, so a method reads the live
-- object through the store (`deref`). A mark `h` of the source, which is -1 before the first event,
-- is `h + 1` here: the next offset. Times are microseconds, and an offset is a natural number; the
-- text of a cursor holds it in 16 digits, so theorems on cursors and logs ask for offsets below
-- 10 ^ 16. The loop of `_catch_up` takes fuel, one unit a page, and raises `out_of_fuel` when it
-- has none left. More fuel than there are offsets from the mark to the end of the log is enough
-- while the log stands still, since the mark moves on with every page. The loop of lease.py takes one
-- unit a round; it is meant to run on, so no amount is enough for it.
--
-- Postgres: a table is a list of rows, and a statement is the function of the tables that its
-- documentation gives it; a transaction that fails leaves the tables as they were, and transactions
-- come one after another. A relation `Represents` says when the tables hold what the store in memory
-- holds; it is on rows in the order in which they were written. Where an ORDER BY leaves rows of one
-- value, a query gets them as an arbitrary `scan` orders the rows, and a RETURNING is in no order. An
-- INTEGER column and a cast to int hold 32 bits and refuse more; numbers below 0 are not modelled.
-- Each statement of a compaction reads its own clock. Texts with U+0000, which Postgres refuses, are
-- left out. A JSONB column gives back what was put; the order of its keys is not modelled.
--
-- JSON-RPC: the publisher is an interface whose methods take the JSON of the request, as Python's
-- methods do.
--
-- Parameters: the clock, fresh ids, the transport's answers, signatures, `str.lower`, the resolver
-- of cards, `urlsplit`, `urlparse` and `ipaddress`, keyed hashes, the text of page tokens, Ed25519, the
-- shortest digits of a float, `datetime.fromisoformat`, the dumps and loads of pydantic, and the
-- collation of the database are functions in records. Where a theorem
-- needs a law of one, it names it: a page token loads as what it was made of, Ed25519 verifies what
-- it signed, the bytes of a public key load again, `lower` turns the names of headers into small
-- letters, what pydantic dumps it loads again, and the collation sorts the cursors of one topic by
-- their padded numbers. Base64 and UTF-8 are written out.
--
-- Not modelled: grpc_binding.py, client.py, the subscriber's application and the JSON-RPC endpoint of
-- server.py, which hand bodies and headers on, schema export, the connection pool of Postgres, claims
-- of the retry queue that run at once, the timed loops of the workers, and the tasks that lease.py
-- starts and cancels.
pub mod Common
pub mod Json
pub mod JsonRpc
pub mod Errors
pub mod ErrorObject
pub mod Exec
pub mod Models
pub mod Cursor
pub mod Canonical
pub mod EventStore
pub mod SubscriptionStore
pub mod RetryQueue
pub mod Selectors
pub mod Signing
pub mod Limits
pub mod Ssrf
pub mod AgentCard
pub mod Auth
pub mod Pagination
pub mod Postgres
pub mod Methods
pub mod Metrics
pub mod HttpBinding
pub mod HttpDelivery
pub mod KeyResolver
pub mod LeaseRenewer
pub mod Publisher
pub mod Receiver
pub mod ReceiveStatus
pub mod MemoryTransport
pub mod Examples
