-- ===== src/Protocols/Http.antt =====
-- `analyze_http` of netreplay/core/protocols/http.py. A text decoded as Latin-1 is its bytes; the interpreter's limit on
-- the digits of a number is not modelled.
use net_replay.Common.{
  ℕ, Bool, true, false, Option, none, some, List, [], ◌∷◌, ◌++◌, if◌then◌else◌, map,
}
use net_replay.Common.Dict.{Dict, lookup, insert}
use net_replay.Common.Text.{codes, text_eq}
use net_replay.Replay.Bytes.{Bytes, bytes_eq}
use net_replay.Replay.Mutation.{starts_with}
use net_replay.Protocols.Hex.{Text}
use net_replay.Protocols.Split.{
  crlf, split_once, first_of, split, is_latin_space, strip, latin_lower, isdigit, int_of_digits,
}

abbrev pub http_methods : List Text
http_methods =
    codes "GET"
    ∷ codes "POST"
    ∷ codes "PUT"
    ∷ codes "DELETE"
    ∷ codes "HEAD"
    ∷ codes "OPTIONS"
    ∷ codes "PATCH"
    ∷ codes "TRACE"
    ∷ codes "CONNECT"
    ∷ []

abbrev pub among : Text → List Text → Bool
among t [] = false
among t (u ∷ us) = if text_eq u t then true else among t us

pub data Kind : Type 0 where
  request response : Kind

pub record HttpInfo : Type 0 where
  pub kind : Kind
  pub method : Text
  pub path : Text
  pub status : ℕ
  pub version : Text
  pub host : Text
  pub content_type : Text

abbrev pub blank_info : Kind → HttpInfo
blank_info kind = record {
  kind = kind;
  method = [];
  path = [];
  status = 0;
  version = [];
  host = [];
  content_type = [];
}

abbrev pub header_key : Bytes → Text
header_key key = map latin_lower (strip is_latin_space key)

abbrev pub add_header : Option (Bytes × Bytes) → Dict Text Text → Dict Text Text
add_header none headers = headers
add_header (some (key, value)) headers =
    insert (header_key key) (strip is_latin_space value) headers

-- The loop over `lines[1:]`.
unfoldable pub read_headers : Dict Text Text → List Bytes → Dict Text Text
read_headers headers [] = headers
read_headers headers (line ∷ lines) =
    read_headers (add_header (split_once (b':' ∷ []) line) headers) lines

abbrev pub or_empty : Option Text → Text
or_empty none = []
or_empty (some t) = t

-- `_header_value`
abbrev pub header_value : Dict Text Text → Text → Text
header_value headers name = or_empty (lookup name headers)

abbrev pub response_of : Dict Text Text → Bytes → Bytes → Option HttpInfo
response_of headers version status =
    if isdigit status
    then some (record (blank_info response) {
      status = int_of_digits 0 status;
      version = version;
      content_type = header_value headers (codes "content-type");
    })
    else none

abbrev pub request_of : Dict Text Text → Bytes → Bytes → Bytes → Option HttpInfo
request_of headers method path version =
    if starts_with (codes "HTTP/") version
    then some (record (blank_info request) {
      method = method;
      path = path;
      version = version;
      host = header_value headers (codes "host");
      content_type = header_value headers (codes "content-type");
    })
    else none

-- `parts[1]`, and `parts[2]` or the default, of what stands behind the first space.
abbrev pub with_version : Dict Text Text → Bytes → Bytes → Option (Bytes × Bytes) → Option HttpInfo
with_version headers method rest none = request_of headers method rest (codes "HTTP/1.0")
with_version headers method rest (some (path, version)) = request_of headers method path version

-- The start line, split at its first space.
abbrev pub from_start : Dict Text Text → Bytes → Option (Bytes × Bytes) → Option HttpInfo
from_start headers start none = none
from_start headers start (some (first, rest)) =
    if starts_with (codes "HTTP/") start
    then response_of headers first (first_of rest (split_once (32 ∷ []) rest))
    else (if among first http_methods
        then with_version headers first rest (split_once (32 ∷ []) rest)
        else none)

abbrev pub from_lines : List Bytes → Option HttpInfo
from_lines [] = none
from_lines (start ∷ lines) = from_start (read_headers [] lines) start (split_once (32 ∷ []) start)

abbrev pub head_of : Bytes → Bytes
head_of payload = first_of payload (split_once (crlf ++ crlf) payload)

abbrev pub from_head : Bytes → Option HttpInfo
from_head [] = none
from_head (b ∷ head) = from_lines (split crlf 0 (b ∷ head))

unfoldable pub analyze_http : Bytes → Option HttpInfo
analyze_http payload = from_head (head_of payload)
