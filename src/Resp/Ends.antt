-- ===== src/Resp/Ends.antt =====
-- The parser ends: the fuel that it is given is enough for every input.
use simis.Prelude.{
  List, Option, Text, arith, inl, inr, length, refl, suc, zero, ℕ, ◌*◌, ◌+◌, ◌-◌, ◌<◌, ◌≡◌, ◌≤◌,
  ◌⊎◌,
}
use simis.Resp.{flatten_resp_array, RespValues}
use simis.Resp.Reader.{
  Reader, new_reader, Outcome, done, failed, panics, out_of_fuel, Parser, and_then, peek,
}
use simis.Resp.Parse.{counted_by, parse_array, parse_elements}
use simis.Resp.Requests.{
  add_command, command_of, ParseCommand, next_request, loop_requests, parse_requests,
  parse_multiple_requests,
}
use simis.Resp.Within.{
  Within-and_then, Within-le, read_number-Within, HasByte, peek-Within, Below, Within-Below,
  Below-and_then, element_by-Below, counted_by-Within, left, Within,
}

mutual
  unfolding parse_array parse_elements

  parse_array-Within :
      (fuel : ℕ) (r : Reader)
      → 0 < left r
      → 2 * left r ≤ fuel
      → Within (left r - 1) (parse_array fuel r)
  parse_array-Within zero r some_left enough = absurd (omega arith)
  parse_array-Within (suc fuel) r some_left enough =
      Within-and_then (left r - 1) (left r - 1) _ (counted_by (λ n r'. parse_elements fuel n r'))
        (read_number-Within _ _ _ r)
        (λ count r' h. Within-le (left r') (left r - 1) _ h (
          counted_by-Within (λ n r''. parse_elements fuel n r'') count r'
            (λ n. parse_elements-Within fuel n r' (omega arith))))

  parse_elements-Within :
      (fuel n : ℕ) (r : Reader) → 2 * left r < fuel → Within (left r) (parse_elements fuel n r)
  parse_elements-Within fuel zero r enough = omega arith
  parse_elements-Within zero (suc n) r enough = absurd (omega arith)
  parse_elements-Within (suc fuel) (suc n) r enough =
      Below-and_then (left r) (left r) _ _
        (element_by-Below (λ r'. parse_array fuel r') r
          (λ r' some_left k. parse_array-Within fuel r' some_left (omega arith)))
        (λ v r' h.
          Within-and_then (left r') (left r) _ _ (parse_elements-Within fuel n r' (omega arith))
            (λ vs r'' k. omega arith))

abbrev Ends {ℓ} : {A : Type ℓ} → Outcome A → Type 0
Ends (done a r) = Unit
Ends (failed e r) = ⊥
Ends panics = Unit
Ends out_of_fuel = ⊥

add-Ends :
    (o : Outcome (List ParseCommand)) (c : Option ParseCommand)
    → Ends o
    → Ends (and_then o (λ cs. done (add_command c cs)))
add-Ends (done cs r) c h = tt
add-Ends (failed e r) c h = absurd h
add-Ends panics c h = tt
add-Ends out_of_fuel c h = absurd h

next_request-Ends :
    (n : ℕ) (o : Outcome RespValues) (rest : Parser (List ParseCommand))
    → Below n o
    → ((r : Reader) → left r < n → Ends (rest r))
    → Ends (next_request o rest)
unfolding next_request
next_request-Ends n (done vs r) rest h k =
    add-Ends (rest r) (command_of (flatten_resp_array vs)) (k r h)
next_request-Ends n (failed e r) rest h k = tt
next_request-Ends n panics rest h k = tt
next_request-Ends n out_of_fuel rest h k = h

loop_requests-Ends :
    (n : ℕ) (o : Outcome ℕ) (body : Parser (List ParseCommand))
    → Within n o
    → HasByte o
    → ((r : Reader) → 0 < left r → left r ≤ n → Ends (body r))
    → Ends (loop_requests o body)
unfolding loop_requests
loop_requests-Ends n (done c r) body h b k = k r b h
loop_requests-Ends n (failed e r) body h b k = tt
loop_requests-Ends n panics body h b k = tt
loop_requests-Ends n out_of_fuel body h b k = h

parse_requests-Ends : (fuel : ℕ) (r : Reader) → 2 * left r < fuel → Ends (parse_requests fuel r)
unfolding parse_requests
parse_requests-Ends zero r enough = absurd (omega arith)
parse_requests-Ends (suc fuel) r enough =
    let (h, b) = peek-Within r.buffered r.unread in
    loop_requests-Ends (left r) (peek r) _ h b (λ r' some_left k.
      next_request-Ends (left r') (parse_array fuel r') _
        (Within-Below (left r') (left r') _ some_left (omega arith)
          (parse_array-Within fuel r' some_left (omega arith)))
        (λ r'' below. parse_requests-Ends fuel r'' (omega arith)))

Ends-cases {ℓ} :
    {A : Type ℓ} (o : Outcome A) → Ends o → (o ≡ panics) ⊎ ((a : A) × (r : Reader) × (o ≡ done a r))
Ends-cases (done a r) h = inr (a, r, refl)
Ends-cases (failed e r) h = absurd h
Ends-cases panics h = inl refl
Ends-cases out_of_fuel h = absurd h

-- ParseMultipleRequests ends on every input, with a list of commands and a rest, or in a panic: the
-- fuel that it is given, two for each byte and one more, is never used up, and no error is returned.
pub parse_multiple_requests-ends :
    (input : Text)
    → (parse_multiple_requests input ≡ panics)
      ⊎ ((cs : List ParseCommand) × (r : Reader) × (parse_multiple_requests input ≡ done cs r))
unfolding parse_multiple_requests
parse_multiple_requests-ends input =
    Ends-cases _ (parse_requests-Ends (2 * length input + 1) (new_reader input) (omega arith))
