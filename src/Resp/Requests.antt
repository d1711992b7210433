-- ===== src/Resp/Requests.antt =====
-- internal/command/parser.go: the commands in the bytes that a connection has received.
use simis.Prelude.{List, Option, Text, [], length, none, some, suc, zero, ℕ, ◌*◌, ◌+◌, ◌∷◌}
use simis.GoText.{trim_space, to_upper}
use simis.Resp.{RespValues, flatten_resp_array}
use simis.Resp.Reader.{
  new_reader, Outcome, done, failed, panics, out_of_fuel, Parser, and_then, peek,
}
use simis.Resp.Parse.{parse_array}

pub record ParseCommand : Type 0 where
  pub name : Text
  pub args : List Text

unfoldable pub command_of : List Text → Option ParseCommand
command_of [] = none
command_of (c ∷ args) = some (record { name = to_upper (trim_space c); args = args })

-- `ParseRequest`; `none` stands for its error on an empty command
unfoldable pub parse_request : Text → Outcome (Option ParseCommand)
parse_request input =
    and_then (parse_array (2 * length input + 1) (new_reader input))
      (λ vs. done (command_of (flatten_resp_array vs)))

unfoldable pub add_command : Option ParseCommand → List ParseCommand → List ParseCommand
add_command none cs = cs
add_command (some c) cs = c ∷ cs

-- What the loop of `ParseMultipleRequests` does with a parsed array: a failure ends it.
unfoldable pub next_request :
    Outcome RespValues → Parser (List ParseCommand) → Outcome (List ParseCommand)
next_request (failed e r) rest = done [] r
next_request panics rest = panics
next_request out_of_fuel rest = out_of_fuel
next_request (done vs r) rest =
    and_then (rest r) (λ cs. done (add_command (command_of (flatten_resp_array vs)) cs))

unfoldable pub loop_requests : Outcome ℕ → Parser (List ParseCommand) → Outcome (List ParseCommand)
loop_requests (done c r) body = body r
loop_requests (failed e r) body = done [] r
loop_requests panics body = panics
loop_requests out_of_fuel body = out_of_fuel

-- The loop of `ParseMultipleRequests`.
unfoldable pub parse_requests : ℕ → Parser (List ParseCommand)
parse_requests zero r = out_of_fuel
parse_requests (suc fuel) r =
    loop_requests (peek r)
      (λ r'. next_request (parse_array fuel r') (λ r''. parse_requests fuel r''))

-- `ParseMultipleRequests`; what remains of the reader is returned as the rest.
unfoldable pub parse_multiple_requests : Text → Outcome (List ParseCommand)
parse_multiple_requests input = parse_requests (2 * length input + 1) (new_reader input)
