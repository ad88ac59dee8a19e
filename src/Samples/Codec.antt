-- ===== src/Samples/Codec.antt =====
-- A codec of maps at which the hypotheses on encoding/json are met: the five fields of a key context,
-- each behind a byte that is no ASCII.
use quantumbilling.Common.{
  ◌≡◌, refl, ap, List, [], ◌∷◌, ◌++◌, Text, text, is_ascii, true, none, some, All, arith,
  if◌then◌else◌, ◌==◌,
}
use quantumbilling.Models.{KeyContext}
use quantumbilling.Models.Codec.{Json, JsonLaws, field_of, key_context_of}

-- What stands before the first separator, and what stands behind it.
unfoldable pub cut : Text → Text × Text
cut [] = ([], [])
cut (c ∷ s) = let (before, behind) = cut s in if c == 200 then ([], s) else (c ∷ before, behind)

cut-append : (s t : Text) → is_ascii s ≡ true → cut (s ++ 200 ∷ t) ≡ (s, t)
unfolding cut
cut-append [] t h = refl
cut-append (c ∷ s) t h = ground (arith, h, cut-append s t)

unfoldable pub encode_context : KeyContext → Text
encode_context kc =
    kc.key_id
    ++ 200 ∷ (kc.org_id ++ 200 ∷ (kc.customer_id ++ 200 ∷ (kc.source_mode ++ 200 ∷ kc.status)))

unfoldable pub decode_context : Text → KeyContext
unfolding cut
decode_context s =
    let (key_id, s1) = cut s in
    let (org_id, s2) = cut s1 in
    let (customer_id, s3) = cut s2 in
    let (source_mode, status) = cut s3 in
    record {
      key_id = key_id;
      org_id = org_id;
      customer_id = customer_id;
      source_mode = source_mode;
      status = status;
    }

is_ascii-field_of :
    (k : Text) (m : List (Text × Text))
    → All (λ (f : Text × Text). is_ascii f.1 ≡ true) m
    → is_ascii (field_of k m) ≡ true
unfolding field_of
is_ascii-field_of k [] h = refl
is_ascii-field_of k ((j, v) ∷ m) h = ground (arith, h.0, is_ascii-field_of k m h.1)

decode-encode :
    (kc : KeyContext)
    → is_ascii kc.key_id ≡ true
    → is_ascii kc.org_id ≡ true
    → is_ascii kc.customer_id ≡ true
    → is_ascii kc.source_mode ≡ true
    → decode_context (encode_context kc) ≡ kc
unfolding decode_context encode_context
decode-encode kc a b c d = ground (
  arith,
  cut-append kc.key_id
      (kc.org_id ++ 200 ∷ (kc.customer_id ++ 200 ∷ (kc.source_mode ++ 200 ∷ kc.status))) a,
  cut-append kc.org_id (kc.customer_id ++ 200 ∷ (kc.source_mode ++ 200 ∷ kc.status)) b,
  cut-append kc.customer_id (kc.source_mode ++ 200 ∷ kc.status) c,
  cut-append kc.source_mode kc.status d,
)

abbrev pub map_json : Json
map_json = record {
  unmarshal_event = λ body. none;
  unmarshal_wrapped = λ body. none;
  unmarshal_bare = λ body. none;
  unmarshal_key_context = λ val. some (decode_context val);
  marshal_event = λ e. none;
  marshal_map = λ m. encode_context (key_context_of m);
}

pub map_json-JsonLaws : JsonLaws map_json
unfolding key_context_of
map_json-JsonLaws = record {
  unmarshal-marshal_map = λ m h. ap some (
      decode-encode (key_context_of m) (is_ascii-field_of (text "key_id") m h)
        (is_ascii-field_of (text "org_id") m h) (is_ascii-field_of (text "customer_id") m h)
        (is_ascii-field_of (text "source_mode") m h));
}
