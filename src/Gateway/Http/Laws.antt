-- ===== src/Gateway/Http/Laws.antt =====
-- src/data_plane.rs: the bound on a response, and its chunks.
use act_web_server_rs.Common.{
  leb, Option-cases, Result-cases, ok_or, if◌then◌else◌, ◌+◌, ◌≤◌, ◌<◌, ◌≡◌, ◌↔◌, ◌∙◌, refl, false,
  Option, none, some, List, [], ◌∷◌, ◌++◌, ok, err, arith, length, length-append, Bytes, Bool-cases,
  inl, inr, ltb,
}
use mathlib.Core.List.{append_assoc, append-nil}
use act_web_server_rs.Common.Json.{Value}
use act_web_server_rs.Ports.{Ports, HttpResponse, Chunk, broken, chunk}
use act_web_server_rs.Gateway.{invalid_response}
use act_web_server_rs.Gateway.Http.{max_http_response_bytes, announces_more, collect, read_response}

-- The bytes of a stream in which no item failed.
abbrev pub all_bytes : List Chunk → Option Bytes
all_bytes [] = some []
all_bytes (broken ∷ stream) = none
all_bytes (chunk bytes ∷ stream) = elim (all_bytes stream) [
  | none ↦ none
  | some rest ↦ some (bytes ++ rest)
]

-- With a stream in which no item failed the loop gives the body if it is within the limit.
collect_of_all_bytes :
    (body : Bytes) (stream : List Chunk) (rest : Bytes)
    → length body ≤ max_http_response_bytes
    → all_bytes stream ≡ some rest
    → collect body stream ≡ (
        if leb (length (body ++ rest)) max_http_response_bytes
        then ok (body ++ rest)
        else err invalid_response)
unfolding collect
collect_of_all_bytes body [] rest h e =
    let nothing : [] ≡ rest = ground arith in rw (← nothing, append-nil) (ground arith)
collect_of_all_bytes body (broken ∷ stream) rest h e = cc
collect_of_all_bytes body (chunk bytes ∷ stream) rest h e = elim (Option-cases (all_bytes stream)) [
  | inl lost ↦ absurd (ground arith)
  | inr (r, found) ↦
      let er : bytes ++ r ≡ rest = ground arith in
      elim (Bool-cases (ltb max_http_response_bytes (length body + length bytes))) [
        | inl over ↦
            rw (← er) (ground (arith, length-append body (bytes ++ r), length-append bytes r))
        | inr within ↦
            rw (← er, ← append_assoc)
              (ground
                (arith, length-append body bytes, collect_of_all_bytes (body ++ bytes) stream r))
      ]
]

-- A body that the loop returns is the whole stream behind what was held, and no item has failed.
collect_sound :
    (body : Bytes) (stream : List Chunk) (all : Bytes)
    → collect body stream ≡ ok all
    → (rest : Bytes) × (all_bytes stream ≡ some rest) × (all ≡ body ++ rest)
unfolding collect
collect_sound body [] all e = ([], refl, rw append-nil (ground arith))
collect_sound body (broken ∷ stream) all e = cc
collect_sound body (chunk bytes ∷ stream) all e =
    let (rest, found, whole) = collect_sound (body ++ bytes) stream all (ground arith) in
    (bytes ++ rest, rw found, whole ∙ append_assoc body bytes rest)

-- Whatever the server sends, the loop holds no more than the limit.
collect_bounded :
    (body : Bytes) (stream : List Chunk) (all : Bytes)
    → length body ≤ max_http_response_bytes
    → collect body stream ≡ ok all
    → length all ≤ max_http_response_bytes
unfolding collect
collect_bounded body [] all h e = ground arith
collect_bounded body (broken ∷ stream) all h e = cc
collect_bounded body (chunk bytes ∷ stream) all h e =
    ground (arith, length-append body bytes, collect_bounded (body ++ bytes) stream all)

module _ (p : Ports) where
  -- A JSON value is returned only for a response with a status from 200 to 299 whose announced
  -- length, if there is one, and whose body are within 256 KiB, whose stream ended with no failed
  -- item, and whose body is JSON for that value.
  pub read_response_sound :
      (r : HttpResponse) (v : Value)
      → read_response p r ≡ ok v
      → (body : Bytes) × (all_bytes r.bytes_stream ≡ some body)
        × (length body ≤ max_http_response_bytes)
        × (p.parse_json body ≡ some v)
        × (200 ≤ r.status)
        × (r.status < 300)
        × (announces_more r.content_length ≡ false)
  unfolding read_response
  read_response_sound r v e = elim (Result-cases (collect [] r.bytes_stream)) [
    | inl (body, done) ↦
        let (rest, found, whole) = collect_sound [] r.bytes_stream body done in
        (
          body,
          rw whole found,
          collect_bounded [] r.bytes_stream body (omega arith) done,
          ground arith,
          ground arith,
          ground arith,
          ground arith,
        )
    | inr (e', failed) ↦ absurd (ground arith)
  ]

  -- what a response has to be for a value
  pub record IsReadable (r : HttpResponse) (v : Value) : Type 0 where
    pub body : Bytes
    pub whole : all_bytes r.bytes_stream ≡ some body
    pub short : length body ≤ max_http_response_bytes
    pub parsed : p.parse_json body ≡ some v
    pub low : 200 ≤ r.status
    pub high : r.status < 300
    pub announced : announces_more r.content_length ≡ false

  -- How the body is cut into chunks does not matter: of a response with a status from 200 to 299,
  -- with no announced length above the limit and a stream in which no item failed, the value is what
  -- the JSON parser makes of all bytes, or `InvalidResponse` if these are no JSON or above 256 KiB.
  pub read_response_of_all_bytes :
      (r : HttpResponse) (body : Bytes)
      → 200 ≤ r.status
      → r.status < 300
      → announces_more r.content_length ≡ false
      → all_bytes r.bytes_stream ≡ some body
      → read_response p r ≡ (
          if leb (length body) max_http_response_bytes
          then ok_or (p.parse_json body) invalid_response
          else err invalid_response)
  unfolding read_response
  read_response_of_all_bytes r body low high short found =
      ground (arith, collect_of_all_bytes [] r.bytes_stream body)

  -- A JSON value is returned exactly if the response has a status from 200 to 299, its announced
  -- length, if there is one, and its body are within 256 KiB, no item of its stream has failed, and its
  -- body is JSON for this value.
  pub read_response_iff :
      (r : HttpResponse) (v : Value) → (read_response p r ≡ ok v) ↔ IsReadable r v
  read_response_iff r v = (
    λ e.
        let (body, whole, short, parsed, low, high, announced) = read_response_sound r v e in
        record {
          body = body;
          whole = whole;
          short = short;
          parsed = parsed;
          low = low;
          high = high;
          announced = announced;
        },
    λ h.
        let same = read_response_of_all_bytes r h.body h.low h.high h.announced h.whole in
        ground (arith, same, h.short, h.parsed),
  )
