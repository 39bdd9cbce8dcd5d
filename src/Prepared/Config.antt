-- ===== src/Prepared/Config.antt =====
-- engine/prepared/view.go and encode.go: the config and build sections. `json` is a parameter: a decoder
-- that refuses unknown fields and trailing data, and an encoder.
use Prim.Native.Nat.{ℕ, ◌^◌, ◌*◌}
use kurn.Prelude.{
  Bool, true, false, not, ◌&&◌, ◌||◌, Option, none, some, List, [], ◌∷◌, ltb, leb, ◌==◌,
  if◌then◌else◌, length,
}
use kurn.Prelude.Bytes.{Bytes, bytes_eq, codes}
use kurn.Prelude.Int.{ℤ, pos, negsuc}
use kurn.Prepared.Words.{malformed, Parsed, parsed, refused, ◌>>=◌}
use kurn.Prepared.Format.{refuse_if}

-- `MaxMetaSection`
abbrev pub max_meta_section : ℕ
max_meta_section = 4 * 2 ^ 20

-- `ngram.MaxGramSize`
abbrev pub max_gram_size : ℕ
max_gram_size = 16

-- `configDoc`
pub record ConfigDoc : Type 0 where
  pub name : Bytes
  pub analyzer_digest : Bytes
  pub config_digest : Bytes
  pub list : Bytes

-- `listConfigMirror`
pub record ListConfig : Type 0 where
  pub mode : Bytes
  pub gram_sizes : List ℤ
  pub strip_spaces : Bool
  pub exact_companion : Bool

-- What `Config` has of the list's match mode.
pub record Config : Type 0 where
  pub doc : ConfigDoc
  pub match : ListConfig

-- `BuildInfo`
pub record BuildInfo : Type 0 where
  pub base_id : Bytes
  pub entries : ℤ
  pub keys : ℤ
  pub dropped_keys : ℤ
  pub keyless_entries : ℤ
  pub n_collapsed : ℤ
  pub source : Bytes
  pub created_at : Bytes
  pub input_sha256 : Bytes

abbrev in_class : ℕ → ℕ → ℕ → Bool
in_class lo hi c = leb lo c && leb c hi

abbrev every : (ℕ → Bool) → Bytes → Bool
every p [] = true
every p (c ∷ s) = p c && every p s

-- `isHex64`
unfoldable pub is_hex64 : Bytes → Bool
is_hex64 s = (length s == 64) && every (λ c. in_class 48 57 c || in_class 97 102 c) s

-- `ValidListName`: `^[a-z0-9][a-z0-9_-]{0,63}$`
unfoldable pub valid_list_name : Bytes → Bool
valid_list_name [] = false
valid_list_name (c ∷ s) =
    (in_class 97 122 c || in_class 48 57 c)
    && (leb (length s) 63
        && every (λ d. in_class 97 122 d || (in_class 48 57 d || ((d == 95) || (d == 45)))) s)

abbrev bad_gram : ℤ → Bool
bad_gram (negsuc k) = true
bad_gram (pos g) = ltb g 1 || ltb max_gram_size g

abbrev some_bad_gram : List ℤ → Bool
some_bad_gram [] = false
some_bad_gram (g ∷ gram_sizes) = bad_gram g || some_bad_gram gram_sizes

abbrev no_grams : List ℤ → Bool
no_grams [] = true
no_grams (g ∷ gram_sizes) = false

abbrev below_zero : ℤ → Bool
below_zero (pos k) = false
below_zero (negsuc k) = true

abbrev pub ngram_mode : Bytes
ngram_mode = codes "ngram"

abbrev pub exact_mode : Bytes
exact_mode = codes "exact"

-- `parseListConfig`, behind the decoding; none is an error.
unfoldable pub check_list_config : ListConfig → Option ListConfig
check_list_config lc =
    if bytes_eq lc.mode ngram_mode
    then (if no_grams lc.gram_sizes || some_bad_gram lc.gram_sizes then none else some lc)
    else if bytes_eq lc.mode exact_mode
    then (if lc.exact_companion then none else some lc)
    else none

-- `strictJSON`: the document is what the encoder writes for what the decoder reads.
unfoldable pub strict_json {ℓ} :
    {A : Type ℓ} → (Bytes → Option A) → (A → Option Bytes) → Bytes → Option A
strict_json decode encode b = elim (decode b) [
  | none ↦ none
  | some a ↦ elim (encode a) [ none ↦ none | some re ↦ if bytes_eq re b then some a else none ]
]

-- An error of the decoding is a malformed section.
abbrev pub or_malformed {ℓ} : {A : Type ℓ} → Option A → Parsed A
or_malformed none = refused malformed
or_malformed (some a) = parsed a

-- `json` for the two sections and for the list's configuration, and `utf8.Valid`
pub record Json : Type 0 where
  pub decode_config : Bytes → Option ConfigDoc
  pub encode_config : ConfigDoc → Option Bytes
  pub decode_list : Bytes → Option ListConfig
  pub decode_build : Bytes → Option BuildInfo
  pub encode_build : BuildInfo → Option Bytes
  pub valid : Bytes → Bool

-- `parseConfig`
unfoldable pub parse_config : Json → Bytes → Parsed Config
unfolding is_hex64 valid_list_name check_list_config strict_json
parse_config json b = refuse_if (ltb max_meta_section (length b)) malformed >>= λ _.
    or_malformed (strict_json json.decode_config json.encode_config b) >>= λ doc.
    refuse_if (not (valid_list_name doc.name)) malformed >>= λ _.
    refuse_if (not (is_hex64 doc.analyzer_digest) || not (is_hex64 doc.config_digest)) malformed
    >>= λ _. or_malformed (json.decode_list doc.list) >>= λ raw.
        or_malformed (check_list_config raw) >>= λ lc. parsed (record { doc = doc; match = lc })

-- `parseBuild`
unfoldable pub parse_build : Json → Bytes → Parsed BuildInfo
unfolding is_hex64 strict_json
parse_build json b = refuse_if (ltb max_meta_section (length b)) malformed >>= λ _.
    or_malformed (strict_json json.decode_build json.encode_build b) >>= λ bi.
    refuse_if (not (is_hex64 bi.base_id)) malformed >>= λ _.
    refuse_if
      (below_zero bi.entries
        || (below_zero bi.keys
            || (below_zero bi.dropped_keys
                || (below_zero bi.keyless_entries || below_zero bi.n_collapsed))))
      malformed
    >>= λ _. parsed bi
