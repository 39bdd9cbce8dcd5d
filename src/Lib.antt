-- ===== src/Lib.antt =====
-- kurn: a lookup engine over lists of entries. This library models the engine's core.
--
-- A list (engine/list.go) has entries, each with an ID, keys and a JSON payload. Reads use one
-- published snapshot: a base segment, an overlay segment, tombstones that mask base entries, and a
-- version stamp. Mutations (Replace, Upsert, Delete, Compact, and the journal replay of
-- engine/journal.go) prepare a new segment and publish a new snapshot, or return an error and
-- change nothing. A segment of an exact-mode list is indexed by engine/exact/exact.go. A query may
-- carry a filter (engine/filter.go, engine/typed_filter.go), which is evaluated on an entry's
-- payload by the scanner of engine/payload.go without decoding the payload. A store
-- (engine/store.go) keeps a list's journal on disk: a mutation is prepared, appended to the
-- journal, and only then applied. A prepared generation (engine/prepared/format.go) is a file of
-- sections behind a header and a section table. The server admits a query once its cost fits the
-- budget of server/admit.go.
--
-- Files:
--   Prelude   shared names, Boolean tests, lists, byte strings, maps, integers and packed words.
--   Payload   engine/payload.go. Token (ws, rawString), Scalar (validScalarToken, rawScalar), Skip
--             (skipValue, skipObject, skipArray), Walk (filterNode, walkValue, walkObject, walkArray,
--             matchesString, matchesScalar, and compiledFilter.eval of engine/filter.go), Unicode and
--             Unquote (decodedStringEq and the standard library under it). Recoded, Agree, Total, Cut and Verdict
--             have the proofs.
--   Filter    engine/typed_filter.go: Value (filterScalar, filterValue), Number
--             (canonicalNumberTokenBytes), Compare (compareFilterScalar, compareCanonicalNumbers,
--             compareCanonicalMagnitudes). Swap has the proof about the comparisons.
--   Exact     engine/exact/exact.go: Index (packed, Index, Lookup, Restore), Build (Builder, Add,
--             Finish). Runs, Compaction and Answers have the proofs.
--   Live      engine/list.go and engine/journal.go: Types (Entry, segment, snapshot, List), Segment
--             (buildSegment, dedupeLastWins), Mutate (the mutators, liveEntriesLocked and
--             applyJournalLocked). View, Fold, Dedupe, Sorted, Sound and
--             Coherent have the proofs.
--   Query     engine/list.go and engine/rank.go: Levels (exactLevels), Terms (anyOfTerms), Search
--             (querySnap in exact mode, sortCandidates, attributeKeys). Carriers has the proof about the
--             index of a built segment; Collect, Shown, Kept, Level, Answers, Cut, TopK and Fallback
--             have the proofs about querySnap, and Reads one about lists with the same snapshot.
--   Store     engine/store.go: Lines (readBoundedLine), Journal (readJournal, appendJournal), Mutate
--             (upsertLocked, DeleteVersioned, the replay in openList). Replay, Codec, Torn, Append, Durable,
--             Reopened, Serve and Stamp have the proofs.
--   Prepared  engine/prepared/format.go: Words (little-endian words, align32), Format (headLen,
--             parseTable, find, encodeHead). Bounds, Total and RoundTrip have the proofs.
--             engine/prepared/view.go and encode.go: Records (parseRecords, the accessors of a record) and
--             Records/Encode (encodeRecords), Ids (parseIDs, Lookup), ExactSection (parseExactSection,
--             exactParts, ExactIndex), NgramSection (parseNgram), Config (parseConfig, parseBuild,
--             parseListConfig) and View (NewView); engine/prepared/frozen.go: Frozen (checkFrozen). Gives
--             has the logic of what a reader gives; the other children have the proofs.
--   Ngram     engine/ngram/ngram.go: Grams (CharGrams, grams, EachGram), on strings as bytes with the
--             decoding of their runes; Emission has the proof.
--   Ingest    ingest/path.go: Node (xnode and the decoded JSON and CSV records, kids), Resolve
--             (resolve), Common (commonPrefix). Leads and Reached have the proof about resolve.
--   Server    server/admit.go: Admit (newAdmitter, acquire and its release, one atomic step at a time);
--             Budget has the proof.
--   Samples   runs on concrete inputs.
--
-- How the model corresponds to the code. A byte string is a list of naturals. A Go map is an
-- association list with one entry for each key, in some order; the code sorts what it takes from a
-- map. A scanner method that moves the cursor takes the bytes that are left and returns the bytes
-- that are left after it. A mutator takes the list and returns the new list with an optional error.
-- Each mutator holds the list's mutex for its whole body, so mutations are a sequence of steps
-- (Live.Coherent.Step). A store's mutation takes the outcomes of its calls on the disk as an
-- argument (Store.Journal.Disk); JSON encoding and decoding of journal records are parameters, with
-- the laws of Store.Codec.IsLawful: a record is read back as a normal form of it, which is the record
-- itself only if its payload is written as it stands and its strings are UTF-8. The running SHA-256 is the bytes that it was given. An entry's ordinal in a segment has no bound where the code
-- has 32 bits: the model is the code's for fewer than 2^32 entries. A query
-- takes the comparison of a score with the threshold, which is one of floats, and its filter as
-- functions; a prepared file's SHA-256, its UTF-8 check and its JSON encoding are functions too, and
-- the admission gate's semaphore a record with the laws that its documentation gives. The steps of
-- the gate's goroutines are a relation (Server.Admit.Step).
--
-- Fuel. The scanner recurses on fuel: compiledFilter.eval gives 2 units for each byte of the
-- payload and 2 more, since each call of skipValue or walkValue and each round of an object or
-- array loop uses a unit and each second one reads a byte. The loops of rawString and exactLevels
-- have one unit for each byte. The search of Prepared.Ids has one unit for each record, and its
-- window shrinks in each round. The other loops are structural.
--
-- Not modelled: the cancellation of a query and its counts (FilterStats); the building of a
-- filter's trie from a list's declared paths; the n-gram index's postings, lookup and float scores,
-- so list segments are those of exact-mode lists; the analyzer, whose Normalize is a parameter of
-- the list; the digest of the configuration in the version stamp, which never changes; buffer pools
-- and unsafe string views; the store's other files, the artifact format, the writers of a prepared
-- file but those of its table and its records, its mapping and publication, the rest of the server,
-- the decoders of ingestion and the commands, which are I/O and glue around this core. The scanner's
-- positions are left out, since the code uses them only as slice bounds.
pub mod Prelude
pub mod Payload
pub mod Filter
pub mod Exact
pub mod Live
pub mod Query
pub mod Store
pub mod Prepared
pub mod Ngram
pub mod Server
pub mod Ingest
pub mod Samples
