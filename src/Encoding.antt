-- ===== src/Encoding.antt =====
-- encoding/codec.go and encoding/proto.go: the codecs, their registry, and the codec for a media
-- type.
use zara_rpc.Common.{
  ◌≡◌, refl, Bool, true, false, not, ◌&&◌, ◌||◌, none, some, List, [], Text, codes, text_eq, take,
  index_byte, trim_space, equal_fold, is_empty, insert, lookup, if◌then◌else◌,
}

-- JSONCodec, JSONV2Codec, XMLCodec and ProtoCodec
pub data Codec : Type 0 where
  json json_v2 xml proto : Codec

-- `Name`
unfoldable pub codec_name : Codec → Text
codec_name json = codes "application/json"
codec_name json_v2 = codes "application/json.v2"
codec_name xml = codes "application/xml"
codec_name proto = codes "application/protobuf"

-- `IsBinary`
abbrev pub is_binary : Codec → Bool
is_binary proto = true
is_binary _ = false

abbrev pub Registry : Type 0
Registry = List (Text × Codec)

-- `Register`
unfoldable pub register : Codec → Registry → Registry
unfolding codec_name
register c r = insert (codec_name c) c r

-- `DefaultRegistry` after `init`
unfoldable pub default_registry : Registry
unfolding register
default_registry = register proto (register xml (register json_v2 (register json [])))

-- `ForName`
unfoldable pub for_name : Text → Codec
unfolding default_registry
for_name name = elim (lookup name default_registry) [ none ↦ json | some c ↦ c ]

abbrev pub media_type : Text → Text
media_type ct = trim_space (elim (index_byte ct b';') [ none ↦ ct | some i ↦ take i ct ])

-- `CodecForContentType`
unfoldable pub codec_for_content_type : Text → Codec
codec_for_content_type ct =
    if equal_fold (media_type ct) (codes "application/protobuf")
      || equal_fold (media_type ct) (codes "application/x-protobuf")
    then proto
    else json

-- `CodecForRequest`
unfoldable pub codec_for_request : Text → Text → Codec
unfolding codec_for_content_type
codec_for_request ct accept =
    if not (is_empty ct)
    then codec_for_content_type ct
    else if not (is_empty accept) && not (text_eq accept (codes "*/*"))
    then codec_for_content_type accept
    else json

-- The registry knows each codec by its name.
pub for_name-codec_name : (c : Codec) → for_name (codec_name c) ≡ c
unfolding for_name
for_name-codec_name json = refl
for_name-codec_name json_v2 = refl
for_name-codec_name xml = refl
for_name-codec_name proto = refl
