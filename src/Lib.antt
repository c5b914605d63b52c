-- ===== src/Lib.antt =====
-- FingerprintHub: a service that shares perceptual-hash fingerprints of unwanted images among
-- consumers. Consumers contribute, flag and delete fingerprints over HTTP and pull the changes of
-- the others as a feed, which they match against images on their own side.
--
-- The parts, and the files that model them:
--   Schema         alembic/versions/0001_init.py: a row of each table as a record, the database as
--                  the tables with the next values of its sequences
--   Sql            the SQL statements that the code issues, over a table as a list of rows
--   Consumers      api/consumers_store.py: generate_api_key, find_by_key_hash, touch_last_seen,
--                  create_consumer
--   Store          api/fingerprint_store.py, a file per operation: Contribute (contribute), Hits
--                  (report_hit), Flags (flag), Delete (soft_delete), Retention (apply_retention),
--                  Feed (sync), Browse (get, list_fingerprints, stats), Races (flag, statement by
--                  statement)
--   Cipher         what the store and the handlers call of utils/field_encryption.py
--   Encryption     utils/field_encryption.py: Envelope (encrypt_text, decrypt_text, and the Cipher
--                  that they make), Keyring (parse_keyring, generate_key_entry), Environment (the
--                  keyring cache, rekey_envelope), and Base64 and UTF-8 as it uses them
--   Migration      alembic/versions/0002_privacy_hardening.py: upgrade and downgrade of the five
--                  columns with secrets
--   Config         config.py: load_config_from_env
--   Workers        utils/async_utils.py: _get_max_workers and _get_executor, the latter as steps of
--                  threads that a schedule picks
--   Postgres       utils/postgres_utils.py and utils/config_access.py: the settings, the pool of the
--                  process, and Runtime, the check of the revision; alembic/env.py: the URL
--   Process        main.py: create_app_from_environment and main
--   Tools          tools/: create_consumer.py, purge_retention.py and generate_field_key.py from
--                  their parsed options on
--   Api            api/: Values (the reading of texts), Messages (requests, answers, errors.py and
--                  the fields of config.py), Access (auth.py), Views, Reading and Writing
--                  (fingerprints.py), App (app.py)
--   Tests          runs, and the theorems at concrete inputs
-- The proofs stand below the part that they are about: Store/Validity (an invariant of the
-- tables), Store/Freshness (what changes between two moments), Store/History (all sequences of
-- operations), Store/Effects (what each operation returns and changes), Store/Feed (pages,
-- replicas), Store/Rows, Store/Secrets and Store/Secrecy (what the operations write into the
-- columns), Store/Races (Serial, Progress), on top of Prelude/Turns (agents that share a lock),
-- Consumers/Uniqueness; Encryption/AtRest, the RoundTrip modules of Encryption,
-- Encryption/Keyring/Parsing and Entry, Encryption/Environment/Cache, Rekey and Rotation;
-- Api/Access (the rate limit, admission), Api/Authorization, Api/Deletion, Api/Privacy,
-- Api/Contents, Api/Constraints, Api/Listing, Api/Bounds, Api/Steps and Api/Serving;
-- Migration/Upgrade, Reversal and Preserved; Postgres/Urls and Pools; Workers/Sharing and
-- Progress; Process/Startup; Tools/Retention and Accounts. An operation is described branch by
-- branch where there is a Branches or a -cases lemma, which the proofs use in place of its
-- definition.
--
-- How they meet: Store takes a Cipher, which Encryption fills. Api calls Store, and Api/Steps tells
-- which operation a request runs, so that what the proofs on the store keep is used for requests
-- (Api/Serving). Tools and Process take their pools from Postgres, and Migration uses the envelopes
-- of Encryption.
--
-- How the code is read: an operation of the store is one transaction, a function from the
-- database to its result and the next database; an exception is a value, and it leaves the tables
-- as they were, though a sequence may have advanced. `contribute` is split at its SELECT (write),
-- so that another transaction may commit between the SELECT and the INSERT (Store/History;
-- Store/Effects/Racing has contributions whose SELECTs all come first); Store/Races has the
-- transactions of `flag` side by side at READ COMMITTED, with the lock of SELECT … FOR UPDATE. A
-- handler is a function of the request, the database, and what it draws: the time and the random
-- nonces. The closure of the authentication middleware is a state of its own (Gate). Python's
-- texts are lists of code points, its integers ℤ over the native numbers.
--
-- Parameters: the SHA-256 digest, the random token of a key, the nonces, both clocks, and AES-GCM
-- (Aead), which seals bytes into bytes and opens what it has sealed under the same key and nonce.
-- The store and the handlers take any Cipher. What psycopg_pool refuses (a test of the settings),
-- what the database and Alembic answer to the check of the revision (Inspection), how aiohttp's
-- server ends, and the environment after `load_dotenv` are arguments too. A JSON number, array or
-- nested object carries its `str`.
--
-- Bounds: sequences and counters are natural numbers without the limit of BIGINT; the INTEGER column
-- `distance` and the OFFSET of a list are checked against their widths. Clock readings are exact
-- numbers of nanoseconds, where the code has floats. `pull` runs on fuel, the number of requests: one
-- more than there are records is enough, since a page that is not the last one holds at least one.
--
-- Not modelled: the surrogate keys of hits and flags, which no statement of the service reads (the
-- migration goes by the order of the rows); the foreign key to consumers, whose rows are never
-- deleted; failures of the database other than those of `touch_last_seen` and of the ping of
-- `health`; texts that PostgreSQL refuses (a NUL or a lone surrogate); routing, HTTP and the parsing
-- of JSON, which are aiohttp's; the parsing of argv, which is argparse's; the log lines and
-- `setup_logging`; what alembic/env.py hands to Alembic after the URL; the DROP TABLEs of the first
-- migration; `run_blocking_io`, which moves a call to a thread; encrypt_json_field,
-- decrypt_json_field, tuple_at and jsonb, which nothing calls.
pub mod Prelude
pub mod Sql
pub mod Schema
pub mod Cipher
pub mod Encryption
pub mod Consumers
pub mod Store
pub mod Api
pub mod Migration
pub mod Config
pub mod Postgres
pub mod Tools
pub mod Process
pub mod Workers
pub mod Tests
