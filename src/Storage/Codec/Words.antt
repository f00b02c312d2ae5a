-- ===== src/Storage/Codec/Words.antt =====
-- An encoding of sets of ids, word by word with a zero after each: a concrete codec for examples.
use busybee.Prelude.{ℕ, zero, suc, ◌≡◌, refl, ap, ◌∙◌, some, List, [], ◌∷◌, Bytes}
use busybee.Storage.Codec.{Codec}
use busybee.Storage.Reply.{IdValue}

-- a word with its end, before other bytes
abbrev pub write_word : Bytes → Bytes → Bytes
write_word [] rest = 0 ∷ rest
write_word (b ∷ bs) rest = suc b ∷ write_word bs rest

abbrev pub grow : ℕ → List Bytes → List Bytes
grow b [] = (b ∷ []) ∷ []
grow b (w ∷ ws) = (b ∷ w) ∷ ws

abbrev pub words : Bytes → List Bytes
words [] = []
words (zero ∷ bs) = [] ∷ words bs
words (suc b ∷ bs) = grow b (words bs)

words-write_word : (w rest : Bytes) → words (write_word w rest) ≡ w ∷ words rest
words-write_word [] rest = refl
words-write_word (b ∷ bs) rest = ap (grow b) (words-write_word bs rest)

abbrev pub write_ids : List IdValue → Bytes
write_ids [] = []
write_ids (v ∷ vs) = write_word v.type (write_word v.value (write_ids vs))

abbrev pub pairs : List Bytes → List IdValue
pairs [] = []
pairs (t ∷ []) = []
pairs (t ∷ (v ∷ ws)) = record { value = v; type = t } ∷ pairs ws

pub read_ids_lem : (vs : List IdValue) → pairs (words (write_ids vs)) ≡ vs
read_ids_lem [] = refl
read_ids_lem (v ∷ vs) =
    ap pairs (
      words-write_word v.type (write_word v.value (write_ids vs))
      ∙ ap (λ ws. v.type ∷ ws) (words-write_word v.value (write_ids vs)))
    ∙ ap (λ r. v ∷ r) (read_ids_lem vs)

unfoldable pub ids_codec : Codec (List IdValue)
ids_codec = record {
  marshal = write_ids;
  unmarshal = λ bs. some (pairs (words bs));
  roundtrip = λ vs. ap some (read_ids_lem vs);
}
