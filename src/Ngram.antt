-- ===== src/Ngram.antt =====
-- engine/ngram/ngram.go: the character grams of keys and queries.
pub mod Grams
pub mod Emission
