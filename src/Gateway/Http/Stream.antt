-- ===== src/Gateway/Http/Stream.antt =====
-- src/data_plane.rs: the `while let` loop of `bounded_http_get` on a stream that need not end.
use act_web_server_rs.Common.{
  ℕ, zero, suc, ◌+◌, ◌<◌, ◌≤◌, ◌≡◌, refl, Option, none, some, List, [], ◌∷◌, ◌++◌, Result, ok, err,
  ltb, if◌then◌else◌, length, length-append, Bytes, Bool-cases, inl, inr, arith, Option-cases,
}
use act_web_server_rs.Ports.{Chunk, broken, chunk}
use act_web_server_rs.Gateway.{GatewayError, upstream, invalid_response}
use act_web_server_rs.Gateway.Http.{max_http_response_bytes, collect}

-- the items that `stream.next()` gives, by their positions
abbrev pub Stream : Type 0
Stream = ℕ → Option Chunk

-- one round of the loop, which goes on with `next`
unfoldable pub round :
    Option Chunk
    → Bytes
    → (Bytes → Option (Result GatewayError Bytes))
    → Option (Result GatewayError Bytes)
round none body next = some (ok body)
round (some broken) body next = some (err upstream)
round (some (chunk bytes)) body next =
    if ltb max_http_response_bytes (length body + length bytes)
    then some (err invalid_response)
    else next (body ++ bytes)

-- the loop from the item `position`, or `none` when it has not ended after `fuel` rounds
unfoldable pub drain : ℕ → Stream → ℕ → Bytes → Option (Result GatewayError Bytes)
unfolding round
drain zero stream position body = none
drain (suc fuel) stream position body =
    round (stream position) body (drain fuel stream (suc position))

-- the items of a stream from `position`, `n` at most
unfoldable pub items : ℕ → Stream → ℕ → List Chunk
items zero stream position = []
items (suc n) stream position = put (stream position) (items n stream (suc position))
  where
    put : Option Chunk → List Chunk → List Chunk
    put none rest = []
    put (some item) rest = item ∷ rest

drain-items :
    (fuel : ℕ) (stream : Stream) (position : ℕ) (body : Bytes)
    → ((i : ℕ) (bytes : Bytes) → stream i ≡ some (chunk bytes) → 0 < length bytes)
    → length body ≤ max_http_response_bytes
    → max_http_response_bytes < fuel + length body
    → (n : ℕ) × (n ≤ fuel)
      × (drain fuel stream position body ≡ some (collect body (items n stream position)))
unfolding drain round collect items
drain-items zero stream position body full h enough = absurd (omega arith)
drain-items (suc fuel) stream position body full h enough = elim (Option-cases (stream position)) [
  | inl ended ↦ (0, omega arith, rw ended refl)
  | inr (broken, read) ↦ (1, omega arith, rw read refl)
  | inr (chunk bytes, read) ↦
      elim (Bool-cases (ltb max_http_response_bytes (length body + length bytes))) [
        | inl over ↦ (1, omega arith, rw (read, over) refl)
        | inr within ↦
            (let (n, few, same) =
                drain-items fuel stream (suc position) (body ++ bytes) full
                  (ground (arith, length-append body bytes))
                  (ground (arith, length-append body bytes, full position bytes read)) in
              (suc n, omega arith, rw (read, within) same))
      ]
]

-- The loop ends on every stream in which no chunk is empty, even on one without an end: it reads at
-- most 256 Ki + 1 items, and returns what it makes of the list of these items.
pub drain_lem :
    (stream : Stream)
    → ((i : ℕ) (bytes : Bytes) → stream i ≡ some (chunk bytes) → 0 < length bytes)
    → (n : ℕ) × (n ≤ suc max_http_response_bytes)
      × (drain (suc max_http_response_bytes) stream 0 [] ≡ some (collect [] (items n stream 0)))
drain_lem stream full =
    drain-items (suc max_http_response_bytes) stream 0 [] full (omega arith) (omega arith)
