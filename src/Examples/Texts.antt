-- ===== src/Examples/Texts.antt =====
-- The modem's HTTP stream and its lines of requests at concrete texts.
use tm4c123gxl_ota.Base.{ℕ, ◌<◌, ◌≡◌, refl, arith, List, [], ◌∷◌, ◌++◌, some, length}
use tm4c123gxl_ota.Text.{Text, codes, digits, decimal}
use tm4c123gxl_ota.Http.{done, more, stream_init, stream_feed, feed_frame, feed_body}
use tm4c123gxl_ota.Http.Body.{collect, concat, feed_pieces, feed_pieces-concat}
use tm4c123gxl_ota.Http.Deliver.{announcement, stream_delivers}
use tm4c123gxl_ota.Rpc.{
  RpcRequest, ok, start_ota, parse, response_topic_of, request_id_size, topic_size,
}
use tm4c123gxl_ota.Rpc.Bounds.{IsVersion16, parse_bounds}
use tm4c123gxl_ota.Rpc.Message.{start_ota_payload, request_line}
use tm4c123gxl_ota.Rpc.Line.{IsId, parse-start_ota}
use tm4c123gxl_ota.Examples.{version_2}

abbrev body : List ℕ
body = 1 ∷ 2 ∷ b',' ∷ 4 ∷ []

-- The announcement and the body, cut in the middle of the body.
abbrev pieces : List (List ℕ)
pieces = codes "+HTTPCGET:" ∷ codes "4" ∷ (b',' ∷ 1 ∷ 2 ∷ []) ∷ (b',' ∷ 4 ∷ []) ∷ []

stream_delivers_example :
    let (result, _, received) = feed_pieces (stream_init 4) [] pieces in
    (result ≡ done) × (received ≡ body)
stream_delivers_example = stream_delivers body pieces (omega arith) (omega arith) whole
  where
    whole : concat pieces ≡ announcement (length body) ++ b',' ∷ body
    whole = unfold decimal in unfold digits in refl

waiting : stream_feed collect (stream_init 4) [] [] ≡ (more, stream_init 4, [])
unfolding stream_feed feed_frame feed_body
waiting = refl

feed_pieces-concat_example :
    feed_pieces (stream_init 4) [] pieces ≡ stream_feed collect (stream_init 4) [] (concat pieces)
feed_pieces-concat_example = feed_pieces-concat (stream_init 4) [] pieces waiting

abbrev id : Text
id = codes "42"

id-IsId : IsId id
id-IsId = (omega arith, omega arith, ground arith)

abbrev request : RpcRequest
request = record {
  request_id = id;
  response_topic = response_topic_of id;
  method = start_ota;
  version = version_2;
}

parse-start_ota_example : parse (request_line id (start_ota_payload version_2)) ≡ (ok, some request)
parse-start_ota_example =
    parse-start_ota id version_2 id-IsId (omega arith, omega arith, omega arith)

parse_bounds_example :
    (0 < length request.request_id)
    × (length request.request_id < request_id_size)
    × (request.response_topic ≡ response_topic_of request.request_id)
    × (length request.response_topic < topic_size)
    × IsVersion16 request.version
parse_bounds_example =
    parse_bounds (request_line id (start_ota_payload version_2)) request
      (parse-start_ota id version_2 id-IsId (omega arith, omega arith, omega arith))
