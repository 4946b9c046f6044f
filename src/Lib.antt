-- ===== src/Lib.antt =====
-- Zion Terminal answers questions about securities: it fetches data from financial sources,
-- validates what it got, makes up synthetic companies, keeps cleaned filings, and routes queries
-- between a real and synthetic worlds. This library models that core and proves what makes it right.
--
-- Parts, files and the source they follow:
--
-- Base.antt and Base/ hold what the parts share: tests on native numbers, lists, the result type that
-- stands for Python's exceptions (Result), integers over native numbers (Int), JSON values and the
-- dict operations on them (Json), dicts with texts for keys (Dict), the stable sort behind `sorted`
-- (Sorting), and text order and case.
--
-- Models/ follows src/zion_terminal/models/responses.py and source_roles.py: the results that agents
-- hand to each other, and which source is authoritative for which domain.
--
-- Retrieval/ follows src/zion_terminal/agents/retrieval/agent.py. Agent.antt has the adapters (a
-- dict in insertion order), the choice of the adapter for a task, and the loop of `fetch`. An adapter
-- calls a web service, so it is a function that the model takes as it is.
--
-- Validation/ follows src/zion_terminal/agents/validation/agent.py. Checks.antt has the checks on one
-- item, Agent.antt the loop of `validate_retrieval`, Synthesis.antt `validate_synthesis`; the counts
-- and the status of `_build_result` are in Agent.antt.
--
-- Synthesis/ follows src/zion_terminal/agents/synthesis/agent.py: the three statements
-- (Statements.antt), `generate` and `generate_with_retry`. The random draws of a run are a record of
-- functions.
--
-- Documents/ follows src/zion_terminal/cache/doc_store.py: a table with a primary key.
--
-- Orchestrator/ follows src/zion_terminal/orchestrator/orchestrator.py: the shared pipeline
-- `_fetch_and_validate` with its strict gate and every direct-access method (Agent.antt), and the
-- filing calls, which also store documents (Filings.antt).
--
-- WorldRouter/ follows src/zion_terminal/world_router.py: the handlers of the two worlds, and the
-- checks on a request and on the response of a handler.
--
-- TruthQuery/ follows src/zion_terminal/truth_query.py. Plan.antt parses a query, Evidence.antt selects
-- rows as of an instant, Release.antt has the clients of a real and of a synthetic release.
--
-- Temporal/ follows src/zion_terminal/temporal.py. Calendar.antt has days as ordinals, the holidays and
-- the market sessions; Instants.antt parses instants to nanoseconds; Leakage.antt has the check that
-- no row looks ahead.
--
-- Reconciler/ follows src/zion_terminal/verification/reconciler.py: the comparison of a fact with an
-- extracted value, and the report that counts the outcomes.
--
-- BalanceQuality/ follows deploy/cloudflare-query/src/sec_balance_quality.py: the guard that withholds
-- balance checks whose two totals are not comparable (Guard.antt), and the retry of the frozen
-- comparator period by period (Periods.antt). The comparator is a function that the model takes.
--
-- Valuation/ follows deploy/cloudflare-query/src/valuation_engine.py. Numbers.antt reads the decimal of a
-- row and decides which fractions are printed as decimals; Formulas.antt has the metrics, their inputs and
-- the table of formulas; Inputs.antt and Context.antt have the checks on one input and on all of them;
-- Derivation.antt has the number of each metric, and Engine.antt `calculate`, with a value for every
-- step at which it may stop. Base/Fractions.antt stands for Python's Fraction.
--
-- SecEngine/ follows deploy/cloudflare-query/src/sec_engine.py: the exact decimals and `calculate`
-- (Decimals.antt, Derivation.antt), whose sums are exact since the precision that the code sets for them is
-- taken as sufficient, and `history` in the order of its code: the sources and their intervals
-- (Sources.antt), the latest version of each context (Selection.antt), the tables of annual and quarterly
-- figures with `insert` and the derived quarters (Periods.antt), overlapping periods (Overlap.antt), cash,
-- debt and free cash flow (Anchors.antt), trailing years (Output.antt), the gaps (Coverage.antt) and their
-- composition (History.antt). LongQuarters.antt has `infer_calendar`, and Balance.antt
-- `balance_checks` of that file, whose model is `balance_identities`.
--
-- HistoryStore/ follows src/zion_terminal/history_store.py. Files.antt has tasks, records and the two
-- folders of files, and Acquire.antt `acquire` with its checkpoints for one worker, whose tasks run one
-- after another. Threads.antt has several threads, whose calls of `atomic` create, fill and rename a
-- temporary file in three steps of a step relation; Pending.antt and Interleaving.antt have what these
-- steps keep. What a thread reads it reads when it begins. Where two threads are at one file at once the
-- model says which content is renamed, and no more. Series.antt, Manifest.antt and Release.antt have
-- `build_release` with its writes in order. SHA-256, the JSON writer and reader, decimal's reader and the
-- adapters are parameters.
--
-- EquityClaims/ follows deploy/cloudflare-query/src/equity_claims.py: the facts available at an instant
-- (Facts.antt) and the latest one of a concept (Selection.antt), the claims for debt, cash and
-- nonoperating assets, and the sums of the bridge to equity (Claims.antt). A reader of dates,
-- decimals and texts is a parameter.
--
-- How the parts interact: the orchestrator calls `fetch` of the retrieval agent, then, where there is
-- data, `validate_retrieval` on its result; a synthesis intent calls `generate` and then
-- `validate_synthesis`. A handler of the world router is one of the release clients. What `acquire`
-- returns is what `build_release` publishes.
--
-- Choices of the model. A Python number is an exact decimal with four places (`num z` is z / 10000),
-- so that comparisons are exact where the source rounds to a float. A message keeps its template and
-- the values that fill it, since no code reads a message. An exception is a value of a `Result`. The
-- retry loop is recursion on the attempts that are left, as `range(max_retries)` bounds it, so no
-- fuel is added. Loops that divide run on a number of rounds: that of Euclid on the divisor and one, and
-- those that take out twos, fives or tens on the number itself, which each round at least halves. Dicts are
-- lists of fields, in which the first field of a name counts. In the SEC engine a date is its day number, an
-- instant is its text, and a decimal is its digits and its places.
--
-- Not modelled: web services and their adapters, parsing of free text by the intent parser and by
-- language models, the command lines, caches on disk, formatting, the normalisation of company facts that
-- feeds the SEC engine, the parsers of downloaded series, the comparison of dataset releases, claims on equity
-- for leases, preferred shares and minorities, and the other deployed workers.
pub mod BalanceQuality
pub mod Base
pub mod Models
pub mod Validation
pub mod Retrieval
pub mod Synthesis
pub mod WorldRouter
pub mod Documents
pub mod Orchestrator
pub mod EquityClaims
pub mod HistoryStore
pub mod Reconciler
pub mod Temporal
pub mod TruthQuery
pub mod SecEngine
pub mod Valuation
pub mod Tests
