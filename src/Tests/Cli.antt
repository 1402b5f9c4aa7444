-- ===== src/Tests/Cli.antt =====
-- The command line client on small inputs.
use gnuradio4_control_plane.Prelude.{ℕ, ◌≡◌, refl, none, some, [], ◌∷◌, if◌then◌else◌, ◌==◌}
use gnuradio4_control_plane.Errors.{Exception, not_found_error, ok}
use gnuradio4_control_plane.Catalog.{pos}
use gnuradio4_control_plane.Json.{JsonLibrary}
use gnuradio4_control_plane.Runtime.Graph.Ports.{codes, number_from}
use gnuradio4_control_plane.Http.{current_error_details, handle_exception}
use gnuradio4_control_plane.Cli.{
  Reply, Client, creation_body, perform_request, get, post, delete, run,
}
use gnuradio4_control_plane.Cli.Url.{
  parse_url, behind, split_colon, stoi, skip_spaces, leading_digits,
}
use gnuradio4_control_plane.Cli.Refused.{
  document, start_session, ReadBack, Refuses, reply_of, local, run-refused,
}
use gnuradio4_control_plane.Tests.Http.{trees}

-- Text behind the digits of a port is ignored.
trailing_port :
    parse_url "http://host:8080abc" ≡ ok (record { host = codes "host"; port = pos 8080 })
unfolding parse_url behind split_colon stoi skip_spaces leading_digits number_from
trailing_port = refl

abbrev missing : Exception
missing = not_found_error "session not found: s"

-- Every document is written as "error", and read back as the one of the exception.
abbrev error_trees : JsonLibrary
error_trees = record trees {
  dump = λ j. "error";
  parse = λ s. if s == "error" then some (document trees (current_error_details missing)) else none;
}

abbrev answer : Reply
answer = reply_of error_trees (handle_exception error_trees missing)

abbrev refusing : Client error_trees ℕ
refusing = record {
  get = λ url path w. (some answer, w);
  delete = λ url path w. (some answer, w);
  post = λ url path body w. (some answer, w);
  read = λ path w. (none, w);
  pretty = λ j. "";
  parse_error = λ s. "";
}

refusing-Refuses : Refuses error_trees refusing local 0 missing
unfolding perform_request
refusing-Refuses get path body = refl
refusing-Refuses post path body = refl
refusing-Refuses delete path body = refl

missing-ReadBack : ReadBack error_trees (document error_trees (current_error_details missing))
unfolding current_error_details
missing-ReadBack = (refl, refl)

run-refused_example :
    (run error_trees refusing ("sessions" ∷ "start" ∷ "s" ∷ []) 0).0
    ≡ ok (record { code = 1; out = ""; err = "not_found: session not found: s\n" })
unfolding current_error_details
run-refused_example =
    run-refused error_trees refusing start_session "s" 0 missing missing-ReadBack refusing-Refuses

-- Every document is read back as the body of a creation.
abbrev creation_trees : JsonLibrary
creation_trees = record trees {
  dump = λ j. "create";
  parse = λ s. if s == "create" then some (creation_body trees "radio" "graph") else none;
}
