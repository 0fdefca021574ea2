-- ===== src/Transport/Frame.antt =====
-- `WireFormat`, `write_frame` and `read_frame` of
-- `crates/ganglion-openraft/src/openraft_runtime/tcp.rs`. `rmp_serde` and `serde_json` are codecs;
-- `flush` of a TCP stream does nothing.
pub mod RoundTrip
pub mod Bounds
use ganglion.Prelude.{
  ℕ, ◌+◌, ◌-◌, ◌*◌, ◌/◌, ◌%◌, ◌^◌, Option, some, none, Bool, true, false, List, [], ◌∷◌, ◌++◌, ◌==◌,
  ◌||◌, ltb, eqb, length, if◌then◌else◌, Result, ok, err,
}
use ganglion.Core.Model.{Str, str_eq}
use ganglion.Openraft.Machine.{Codec}
use ganglion.Transport.Stream.{Bytes, ErrorKind, invalid_data, Stream, read_exact, write_all, await}

pub data WireFormat : Type 0 where
  message_pack json : WireFormat

unfoldable pub tag : WireFormat → ℕ
tag message_pack = 1
tag json = 2

unfoldable pub from_tag : ℕ → Result ErrorKind WireFormat
from_tag byte =
    if eqb byte 1 then ok message_pack else if eqb byte 2 then ok json else err invalid_data

-- `from_str`, with the bytes of `msgpack`, `messagepack` and `json`; the error has the text.
pub from_str : Str → Result Str WireFormat
from_str raw =
    if raw == (109 ∷ 115 ∷ 103 ∷ 112 ∷ 97 ∷ 99 ∷ 107 ∷ [])
      || raw == (109 ∷ 101 ∷ 115 ∷ 115 ∷ 97 ∷ 103 ∷ 101 ∷ 112 ∷ 97 ∷ 99 ∷ 107 ∷ [])
    then ok message_pack
    else if raw == (106 ∷ 115 ∷ 111 ∷ 110 ∷ [])
    then ok json
    else err raw

-- A serializer of each format.
pub record WireCodec (T : Type 0) : Type 0 where
  pub rmp_serde : Codec T
  pub serde_json : Codec T

abbrev codec_of : {T : Type 0} → WireCodec T → WireFormat → Codec T
codec_of codec message_pack = codec.rmp_serde
codec_of codec json = codec.serde_json

abbrev or_invalid : {A : Type 0} → Option A → Result ErrorKind A
or_invalid none = err invalid_data
or_invalid (some a) = ok a

module _ {T : Type 0} (codec : WireCodec T) where
  unfoldable pub encode : WireFormat → T → Result ErrorKind Bytes
  encode format value = or_invalid ((codec_of codec format).to_vec value)

  unfoldable pub decode : WireFormat → Bytes → Result ErrorKind T
  decode format bytes = or_invalid ((codec_of codec format).from_slice bytes)

abbrev pub max_frame_bytes : ℕ
max_frame_bytes = 64 * 1024 * 1024

-- `u32::to_be_bytes` and `u32::from_be_bytes`.
abbrev pub to_be_bytes : ℕ → Bytes
to_be_bytes n = (n / 2 ^ 24) ∷ (n / 2 ^ 16 % 256) ∷ (n / 2 ^ 8 % 256) ∷ (n % 256) ∷ []

abbrev pub from_be_bytes : Bytes → ℕ
from_be_bytes [] = 0
from_be_bytes (b ∷ bytes) = b * 256 ^ length bytes + from_be_bytes bytes

-- The byte that a read of one byte gave.
abbrev pub first_byte : Bytes → ℕ
first_byte [] = 0
first_byte (b ∷ bytes) = b

module _ {T : Type 0} (codec : WireCodec T) where
  unfoldable pub write_frame : WireFormat → T → Stream → Result ErrorKind (Unit {0}) × Stream
  unfolding encode tag write_all
  write_frame format value s = elim (encode codec format value) [
    | err e ↦ (err e, s)
    | ok body ↦
        let size = length body in
        if ltb (2 ^ 32 - 1) size
        then (err invalid_data, s)
        else if ltb max_frame_bytes size
        then (err invalid_data, s)
        else await (write_all (tag format ∷ []) s)
            (λ _ s. await (write_all (to_be_bytes size) s) (λ _ s. write_all body s))
  ]

  unfoldable pub read_frame : Stream → Result ErrorKind T × Stream
  unfolding decode from_tag read_exact
  read_frame s = await (read_exact 1 s) (λ tag s. elim (from_tag (first_byte tag)) [
    | err e ↦ (err e, s)
    | ok format ↦ await (read_exact 4 s) (λ prefix s.
        let size = from_be_bytes prefix in
        if ltb max_frame_bytes size
        then (err invalid_data, s)
        else await (read_exact size s) (λ body s. (decode codec format body, s)))
  ])
