-- ===== src/Tests/Streams.antt =====
-- A response without an end.
use act_web_server_rs.Common.{ℕ, suc, ◌≡◌, ◌≤◌, ◌<◌, some, [], ◌∷◌, length, Bytes, arith}
use act_web_server_rs.Gateway.Http.{max_http_response_bytes, collect}
use act_web_server_rs.Gateway.Http.Stream.{Stream, drain, items, drain_lem}
use act_web_server_rs.Ports.{chunk}

abbrev endless : Stream
endless position = some (chunk (123 ∷ []))

full : (i : ℕ) (bytes : Bytes) → endless i ≡ some (chunk bytes) → 0 < length bytes
full i bytes e = ground arith

drain_lem_example :
    (n : ℕ) × (n ≤ suc max_http_response_bytes)
    × (drain (suc max_http_response_bytes) endless 0 [] ≡ some (collect [] (items n endless 0)))
drain_lem_example = drain_lem endless full
