-- ===== src/Samples.antt =====
-- Tests, and the theorems at concrete inputs.
mod Live
mod Exact
mod Payload
mod Query
mod Store
mod Filter
mod Ingest
mod Prepared
mod Ngram
mod Server
mod Serve
mod Records
mod Bitmaps
mod View
