-- ===== src/Http/Targets/Paths.antt =====
-- The path of a websocket stream and its reading in src/api/http_server.cpp.
use Prim.Native.Char.{code}
use Prim.Native.String.{String}
use text.Mathlib.TextLemmas.{nil-append, cons-append, append_assoc}
use gnuradio4_control_plane.Prelude.{
  ℕ, ◌+◌, ◌-◌, ◌≡◌, refl, ap, ◌∙◌, true, false, none, some, List, [], ◌∷◌, ◌++◌, if◌then◌else◌, leb,
  nat_eq, length, arith, ◌<>◌,
}
use gnuradio4_control_plane.Errors.{ok}
use gnuradio4_control_plane.Runtime.Graph.Ports.{codes}
use gnuradio4_control_plane.Streams.Blocks.{make_stream_path}
use gnuradio4_control_plane.Cli.Url.{behind}
use gnuradio4_control_plane.Http.Targets.{
  decode_from, decode_percent_encoded, before_query, same_codes, ends_with, split_here, split_at,
  take, has_slash, target_of, within, parse_websocket_stream_target,
}

-- The characters of a session id: none ends it, and none starts a query.
unfoldable pub IsPlainId : List ℕ → Type 0
IsPlainId [] = Unit
IsPlainId (c ∷ s) = (nat_eq c b'/' ≡ false) × (nat_eq c b'?' ≡ false) × IsPlainId s

-- The characters of a stream id: none is encoded, and none starts a query.
unfoldable pub IsPlainStream : List ℕ → Type 0
IsPlainStream [] = Unit
IsPlainStream (c ∷ s) =
    (nat_eq c b'%' ≡ false) × (nat_eq c b'+' ≡ false) × (nat_eq c b'?' ≡ false) × IsPlainStream s

-- The path of a stream.
abbrev pub stream_path : List ℕ → List ℕ → List ℕ
stream_path id stream = codes "/sessions/" ++ (id ++ (codes "/streams/" ++ (stream ++ codes "/ws")))

decode-plain : (s : List ℕ) → IsPlainStream s → decode_from 0 s ≡ ok s
unfolding decode_from IsPlainStream
decode-plain [] h = refl
decode-plain (c ∷ s) h = rw (h.0, decode_from, h.1, decode-plain s h.3) refl

before_query-stream :
    (s : List ℕ) → IsPlainStream s → before_query (s ++ codes "/ws") ≡ s ++ codes "/ws"
unfolding before_query IsPlainStream
before_query-stream [] h = refl
before_query-stream (c ∷ s) h = rw h.2 (ap (◌∷◌ c) (before_query-stream s h.3))

before_query-id :
    (id rest : List ℕ)
    → IsPlainId id
    → before_query rest ≡ rest
    → before_query (id ++ rest) ≡ id ++ rest
unfolding before_query IsPlainId
before_query-id [] rest h e = e
before_query-id (c ∷ id) rest h e = rw h.1 (ap (◌∷◌ c) (before_query-id id rest h.2 e))

-- Plain texts before and after fixed ones have no query.
before_query-path :
    (id stream : List ℕ)
    → IsPlainId id
    → IsPlainStream stream
    → before_query (stream_path id stream) ≡ stream_path id stream
unfolding before_query
before_query-path id stream p q =
    ap (λ s. codes "/sessions/" ++ s)
      (before_query-id id (codes "/streams/" ++ (stream ++ codes "/ws")) p
        (ap (λ s. codes "/streams/" ++ s) (before_query-stream stream q)))

behind-other :
    (b c : ℕ) (prefix s : List ℕ) → nat_eq b c ≡ false → behind (b ∷ prefix) (c ∷ s) ≡ none
unfolding behind
behind-other b c prefix s h = rw h refl

split_at-id :
    (id rest : List ℕ)
    → IsPlainId id
    → split_at (codes "/streams/") (id ++ (codes "/streams/" ++ rest)) ≡ some (id, rest)
unfolding split_at behind IsPlainId
split_at-id [] rest h = refl
split_at-id (c ∷ id) rest h =
    let s = id ++ (codes "/streams/" ++ rest) in
    ap (λ b. split_here c b (split_at (codes "/streams/") s))
      (behind-other b'/' c (codes "streams/") s (ground (arith, h.0)))
    ∙ ap (split_here c none) (split_at-id id rest h.2)

has_slash-id : (id : List ℕ) → IsPlainId id → has_slash id ≡ false
unfolding has_slash IsPlainId
has_slash-id [] h = refl
has_slash-id (c ∷ id) h = rw h.0 (has_slash-id id h.2)

ends_with-append : (s : List ℕ) → ends_with (codes "/ws") (s ++ codes "/ws") ≡ true
unfolding ends_with same_codes
ends_with-append [] = refl
ends_with-append (c ∷ s) = ground (arith, ends_with-append s)

length-append : (s : List ℕ) → length (s ++ codes "/ws") ≡ length s + 3
length-append [] = refl
length-append (c ∷ s) = omega (arith, length-append s)

take-append : (s t : List ℕ) → take (length s) (s ++ t) ≡ s
unfolding take
take-append [] [] = refl
take-append [] (c ∷ t) = refl
take-append (c ∷ s) t = ap (◌∷◌ c) (take-append s t)

-- The length is that of a text with the suffix.
cut-stream : (s : List ℕ) → take (length (s ++ codes "/ws") - 3) (s ++ codes "/ws") ≡ s
cut-stream s =
    let n : length (s ++ codes "/ws") - 3 ≡ length s = omega (arith, length-append s) in
    rw n (take-append s (codes "/ws"))

ends_with-front :
    (front s : List ℕ)
    → ends_with (codes "/ws") s ≡ true
    → ends_with (codes "/ws") (front ++ s) ≡ true
unfolding ends_with
ends_with-front [] s h = h
ends_with-front (c ∷ front) s h = ground (arith, ends_with-front front s h)

target_of-plain :
    (id stream : List ℕ)
    → IsPlainId id
    → IsPlainStream stream
    → nat_eq (length id) 0 ≡ false
    → nat_eq (length stream) 0 ≡ false
    → target_of (some (id, stream ++ codes "/ws")) ≡ ok (some (id, stream))
unfolding decode_percent_encoded
target_of-plain id stream p q a b =
    let long : leb (length (stream ++ codes "/ws")) 3 ≡ false =
      ground (arith, length-append stream, b) in
    rw (a, target_of, long, has_slash-id id p, cut-stream stream, decode-plain stream q) refl

codes-append : (s t : String) → codes (s <> t) ≡ codes s ++ codes t
codes-append String.[] t = ap codes (nil-append t)
codes-append (String.◌∷◌ c s) t =
    ap codes (cons-append c s t) ∙ ap (◌∷◌ (code c)) (codes-append s t)

codes-make_stream_path :
    (id stream : String)
    → codes (make_stream_path id stream "websocket") ≡ stream_path (codes id) (codes stream)
unfolding make_stream_path
codes-make_stream_path id stream =
    ap codes (
      append_assoc ("/sessions/" <> id <> "/streams/") stream "/ws"
      ∙ append_assoc ("/sessions/" <> id) "/streams/" (stream <> "/ws")
      ∙ append_assoc "/sessions/" id ("/streams/" <> (stream <> "/ws")))
    ∙ codes-append "/sessions/" (id <> ("/streams/" <> (stream <> "/ws")))
    ∙ ap (λ s. codes "/sessions/" ++ s)
        (codes-append id ("/streams/" <> (stream <> "/ws"))
          ∙ ap (λ s. codes id ++ s)
              (codes-append "/streams/" (stream <> "/ws")
                ∙ ap (λ s. codes "/streams/" ++ s) (codes-append stream "/ws")))

parse-stream_path :
    (id stream : List ℕ)
    → IsPlainId id
    → IsPlainStream stream
    → nat_eq (length id) 0 ≡ false
    → nat_eq (length stream) 0 ≡ false
    → parse_websocket_stream_target (stream_path id stream) ≡ ok (some (id, stream))
unfolding parse_websocket_stream_target behind
parse-stream_path id stream p q a b =
    let rest = stream ++ codes "/ws" in
    let ends = ends_with-front (codes "/sessions/") (id ++ (codes "/streams/" ++ rest)) (
      ends_with-front id (codes "/streams/" ++ rest)
        (ends_with-front (codes "/streams/") rest (ends_with-append stream))) in
    ap (λ route. within route (behind (codes "/sessions/") route)) (before_query-path id stream p q)
    ∙ ap
        (λ b.
          if b
          then target_of (split_at (codes "/streams/") (id ++ (codes "/streams/" ++ rest)))
          else ok none)
        ends
    ∙ ap target_of (split_at-id id rest p)
    ∙ target_of-plain id stream p q a b

-- If neither id is empty, the session id has no slash and no question mark and the stream id no percent
-- sign, plus sign or question mark, then the path that the plan has for a websocket stream is read as
-- the two ids.
pub parse_websocket_stream_target-make_stream_path :
    (id stream : String)
    → IsPlainId (codes id)
    → IsPlainStream (codes stream)
    → nat_eq (length (codes id)) 0 ≡ false
    → nat_eq (length (codes stream)) 0 ≡ false
    → parse_websocket_stream_target (codes (make_stream_path id stream "websocket"))
      ≡ ok (some (codes id, codes stream))
parse_websocket_stream_target-make_stream_path id stream p q a b =
    ap parse_websocket_stream_target (codes-make_stream_path id stream)
    ∙ parse-stream_path (codes id) (codes stream) p q a b
