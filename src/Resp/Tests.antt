-- ===== src/Resp/Tests.antt =====
-- The texts of the protocol at concrete values.
use simis.Prelude.{List, Text, [], arith, bytes, refl, ◌++◌, ◌∷◌, ◌≡◌, ◌⊎◌}
use simis.Resp.{to_resp_array, crlf, bulk}
use simis.GoText.{format_uint}
use simis.Resp.Reader.{Reader, done, panics}
use simis.Resp.Parse.{read_bulk, zeros}
use simis.Resp.Requests.{ParseCommand, parse_multiple_requests}
use simis.Resp.Lines.{reader}
use simis.Resp.Pipeline.{
  Sent, wire, received, parse_multiple_requests-wire, parse_multiple_requests_cut, read_bulk_cut,
}
use simis.Resp.Ends.{parse_multiple_requests-ends}

abbrev get_words : List Text
get_words = bytes "GET" ∷ bytes "k" ∷ []

abbrev two_commands : Sent
two_commands = (bytes "set", bytes "k" ∷ bytes "v" ∷ []) ∷ (bytes "get", bytes "k" ∷ []) ∷ []

parse_multiple_requests-wire_example :
    parse_multiple_requests (wire two_commands) ≡ done (received two_commands) (reader [] [])
unfolding simis.GoText.itoa simis.GoText.decimal simis.Resp.to_bulk_string
parse_multiple_requests-wire_example =
    parse_multiple_requests-wire two_commands (unfold to_resp_array in omega arith)

parse_multiple_requests_cut_example : parse_multiple_requests (bytes "*2") ≡ done [] (reader [] [])
parse_multiple_requests_cut_example = parse_multiple_requests_cut (bytes "*2") (refl, (refl, tt))

read_bulk_cut_example :
    read_bulk (reader ((b'$' ∷ format_uint 5) ++ (crlf ++ bytes "ab")) [])
    ≡ done (bulk (bytes "ab" ++ zeros 3)) (reader [] [])
read_bulk_cut_example = read_bulk_cut (bytes "ab") (bytes "cde") (omega arith) (omega arith)

parse_multiple_requests-ends_example :
    (parse_multiple_requests (bytes "*1") ≡ panics)
    ⊎ ((cs : List ParseCommand) × (r : Reader) × (parse_multiple_requests (bytes "*1") ≡ done cs r))
parse_multiple_requests-ends_example = parse_multiple_requests-ends (bytes "*1")
