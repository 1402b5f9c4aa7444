-- ===== src/Tests/Targets.antt =====
-- The targets of websocket requests on small inputs.
use gnuradio4_control_plane.Prelude.{◌≡◌, refl, some}
use gnuradio4_control_plane.Errors.{ok, err, std_error}
use gnuradio4_control_plane.Streams.Blocks.{make_stream_path}
use gnuradio4_control_plane.Runtime.Graph.Ports.{codes}
use gnuradio4_control_plane.Http.Targets.{
  parse_websocket_stream_target, decode_percent_encoded, decode_from, hex_byte,
}
use gnuradio4_control_plane.Http.Targets.Paths.{
  IsPlainId, IsPlainStream, parse_websocket_stream_target-make_stream_path,
}

s1-IsPlainId : IsPlainId (codes "s1")
unfolding IsPlainId
s1-IsPlainId = (refl, refl, (refl, refl, tt))

fft-IsPlainStream : IsPlainStream (codes "fft")
unfolding IsPlainStream
fft-IsPlainStream = (refl, refl, refl, (refl, refl, refl, (refl, refl, refl, tt)))

parse_websocket_stream_target-make_stream_path_example :
    parse_websocket_stream_target (codes (make_stream_path "s1" "fft" "websocket"))
    ≡ ok (some (codes "s1", codes "fft"))
parse_websocket_stream_target-make_stream_path_example =
    parse_websocket_stream_target-make_stream_path "s1" "fft" s1-IsPlainId fft-IsPlainStream refl
      refl

-- Two characters that spell no number make the decoding throw.
bad_encoding : decode_percent_encoded (codes "a%zz") ≡ err (std_error "stoi")
unfolding decode_percent_encoded decode_from hex_byte
bad_encoding = refl

two_bytes : decode_percent_encoded (codes "a%41+") ≡ ok (codes "aA ")
unfolding decode_percent_encoded decode_from hex_byte
two_bytes = refl
