-- ===== src/Lib.antt =====
-- A model of vestibule, a pipeline that takes documents from arrival to a vector index.
--
-- Every document is named by a hash of where it came from (Identity) and has one row in a ledger
-- (Ledger), whose status is moved by each stage of the pipeline, by the vertical loader, by reviewers
-- and by operators. The ledger is the only state that the stages share, apart from the registry of
-- parked documents that the loader and the review queue share (Vertical). The analyzer
-- detects a document's type and has it parsed into elements, the chunker cuts these into chunks, the
-- embedder gives the chunks their vectors, and the indexer writes them to a vector store. A registry
-- of its own says which worker provisions which index (Provisioning). A part that loses a race on
-- a row asks the ledger's triage whether the loss is benign. Every error has a code and a severity in
-- one catalog (Errors).
--
--   Prelude, Dict    shared names, tests, lists, Python's ints and dicts, and calls that raise
--   Identity         src/vestibule/identity/derive.py: `derive_doc_id`, `derive_chunk_id`,
--                    `validate_id_format`
--   Envelope         src/vestibule/envelope/model.py: the validators of `ArrivalEnvelope`, and
--                    `build_envelope`; the type of the envelope is in Vertical.Model
--   Errors           src/vestibule/errors/registry.py: `ErrorRegistry` and its methods
--   Ledger           src/vestibule/ledger/store.py: Model has the rows and the table of transitions,
--                    Store `validate_transition`, `is_benign_concurrent_loss` and the methods of
--                    `InMemoryLedgerStore`; the other modules are about them
--   Scenario         src/vestibule/scenario/model.py and the lookups of stores/base.py; Validation is
--                    _validation.py, and IndexName and Consistent are about it; Configs is the
--                    conversions of model.py; Select is
--                    `select_enabled_for_vertical` of stores/base.py, Cached is
--                    stores/cached_store.py, and the other modules are about it
--   Analyzer         src/vestibule/analyzer/: Model for model.py and registry.py, Detect for detect.py,
--                    Analyze for `Analyzer` of analyzer.py, Docint for parsers/docint_parser.py; the
--                    other modules are about them
--   Chunker          src/vestibule/chunker/: Chunker and Model for model.py, token_counter.py and the
--                    configuration, Strategies and Tables for strategies/, Regions, Merge and Assemble
--                    for chunker.py; the other modules are about them
--   Embedder         src/vestibule/embedder/: Model for model.py, adapters/base.py and the
--                    configuration, Embed for `Embedder` of embedder.py; the other modules are about it
--   Indexer          src/vestibule/indexer/: Model for model.py, adapters/base.py and the
--                    configuration, Upsert and Index for `Indexer` of indexer.py, Memory for
--                    `InMemoryIndexer` of adapters/in_memory.py; the other modules are about them
--   Vertical         src/vestibule/vertical/: Model, Rules, Resolve and Load for loader.py, Review for
--                    review_queue.py; the other modules are about them
--   Provisioning     src/vestibule/provisioning/: Model for the entries of model.py, Registry for
--                    `InMemoryIndexRegistry` of registry.py, Template and Equality for the templates
--                    of model.py and templates.py, World for what a call acts on, Calls, Verify, Create,
--                    Wait and Provisioner for `IndexProvisioner` of provisioner.py, InMemory for
--                    adapters/in_memory.py; the other modules are about them
--   Pipeline         the stages one after the other
--   Reprocessor      src/vestibule/reprocessor/: `list_failed` and `summarize` in Reprocessor,
--                    `requeue`, `requeue_by_error_code` and `archive` in Actions
--   Samples          the data of the tests, which stand in each part's Tests
--
-- A method takes the state of its object and returns it with what it returned or raised; an exception
-- is a value of a data type with the source's fields. Times are numbers, and the clock is any sequence
-- of them. The methods of the ledger hold its lock throughout, so they are single steps. Where a
-- component makes several calls, other threads may run between them: they are an argument, any
-- function of the state, and a theorem about a call alone takes the identity for it. A call of `embed`
-- writes to the ledger once, and is given the ledger as it is then; between the calls of one `index`
-- no other worker runs. A call of the embedder's service may answer each time as it likes. `analyze`
-- takes as an argument what other workers do while it parses, and the provisioner what they do before
-- each of its accesses.
--
-- Loops are over lists, so they end. The provisioner's methods end in calls of each other; `run` has
-- fuel for their number, three for a fresh index, and a theorem bounds the rounds of the wait. The
-- printing of a number in decimal has fuel for one digit more than its value, and no number has that
-- many.
--
-- A cached scenario store stands over a backend that is a parameter; where a theorem needs it, a write
-- of the backend that raises is assumed to write nothing. SHA-256, Python's `repr`, `str` of a number
-- and `fnmatch.fnmatchcase`, the floating-point operations, and the services that the adapters of the
-- embedder and the indexer bind are parameters. Of the services a theorem says itself what it takes
-- them to do; of the others nothing is assumed. A set of the in-memory indexer gives any one of its
-- members when asked for one. Not modelled are logging, the abstract base classes, the search of the
-- in-memory indexer, the parser of digital PDFs, which is in floating point, the adapters of cloud
-- services and databases, the cache of the index registry, pydantic's checks of single fields of a
-- scenario, and the reading of templates and scenarios from files. The text splitter, tiktoken,
-- pymupdf and the client of Document Intelligence are parameters too.
pub mod Prelude
pub mod Dict
pub mod Identity
pub mod Ledger
pub mod Errors
pub mod Reprocessor
pub mod Scenario
pub mod Analyzer
pub mod Chunker
pub mod Embedder
pub mod Indexer
pub mod Envelope
pub mod Pipeline
pub mod Provisioning
pub mod Vertical
pub mod Samples
