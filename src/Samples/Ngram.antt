-- ===== src/Samples/Ngram.antt =====
-- The grams of a short key, and of one that is not UTF-8.
use kurn.Prelude.{◌≡◌, refl, true, [], ◌∷◌}
use kurn.Prelude.Bytes.{Bytes, codes}
use kurn.Prelude.Dict.{lookup, insert}
use kurn.Payload.Unicode.{
  decode_rune, decode_two, within, encode_rune, three_bytes, utf8_valid, valid_loop, is_bad,
}
use kurn.Ngram.Grams.{
  pieces, pieces_loop, of_runes, of_bytes, emit_loop, char_grams, char_loop, grams, stripped,
  each_gram,
}
use kurn.Ngram.Emission.{distinct, each_gram-grams}

-- "aé" and a byte that is not UTF-8.
abbrev broken : Bytes
broken = 97 ∷ 195 ∷ 169 ∷ 255 ∷ []

-- Opens what the grams compute with.
ngram_runs : Unit {0}
unfolding char_grams char_loop each_gram emit_loop of_runes of_bytes pieces pieces_loop decode_rune
    decode_two within encode_rune three_bytes utf8_valid valid_loop is_bad lookup insert
ngram_runs = tt

char_grams_run :
    (char_grams (codes "anana") 2 ≡ codes "an" ∷ codes "na" ∷ [])
    × (char_grams broken 2 ≡ (97 ∷ 195 ∷ 169 ∷ []) ∷ (195 ∷ 169 ∷ 239 ∷ 191 ∷ 189 ∷ []) ∷ [])
    × ((each_gram broken (2 ∷ []) []).0 ≡ (97 ∷ 195 ∷ 169 ∷ []) ∷ (195 ∷ 169 ∷ 255 ∷ []) ∷ [])
unfolding ngram_runs
char_grams_run = (refl, refl, refl)

each_gram-grams_example :
    each_gram (stripped true (codes "an ana")) (2 ∷ 3 ∷ 9 ∷ []) []
    ≡ distinct [] (grams true (2 ∷ 3 ∷ 9 ∷ []) (codes "an ana"))
unfolding ngram_runs
each_gram-grams_example = each_gram-grams true (2 ∷ 3 ∷ 9 ∷ []) (codes "an ana") refl refl
