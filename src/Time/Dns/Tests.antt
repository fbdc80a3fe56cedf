-- ===== src/Time/Dns/Tests.antt =====
-- packages/time-correction/src/dns.rs: messages, and the theorems at them.
use nixos_test.Prelude.{ℕ, ◌+◌, ◌≡◌, ◌≢◌, refl, [], ◌∷◌, ◌++◌, Bytes, length, All, slice}
use nixos_test.Prelude.Outcome.{ok, err}
use nixos_test.Time.Dns.{
  v4, pointer_limit, split, encode_labels, encode_query, u16_at, turn, turn_at, follow_label,
  follow_pointer, continue, skip_loop, skip_name, skip_questions, address_of, with_address,
  read_answers, nonempty, parse_response,
}
use nixos_test.Time.Dns.Skip.{Ends, skip_name-Ends}
use nixos_test.Time.Dns.Query.{skip_name-encode_query}
use nixos_test.Time.Dns.Answers.{HeaderAgrees, IsAnswer, parse_response-IsAnswer}

-- The question `a.bc` of type A under the id 7.
abbrev name : Bytes
name = b'a' ∷ b'.' ∷ b'b' ∷ b'c' ∷ []

abbrev question : Bytes
question = 1 ∷ b'a' ∷ 2 ∷ b'b' ∷ b'c' ∷ 0 ∷ 0 ∷ 1 ∷ 0 ∷ 1 ∷ []

abbrev query : Bytes
query = 0 ∷ 7 ∷ 1 ∷ 0 ∷ 0 ∷ 1 ∷ 0 ∷ 0 ∷ 0 ∷ 0 ∷ 0 ∷ 0 ∷ question

query_runs : encode_query 7 name 1 ≡ ok query
unfolding encode_query split encode_labels
query_runs = refl

-- The answer 192.0.2.9, its owner a pointer to the question.
abbrev response : Bytes
response =
    0
    ∷ 7
    ∷ 0x81
    ∷ 0x80
    ∷ 0
    ∷ 1
    ∷ 0
    ∷ 1
    ∷ 0
    ∷ 0
    ∷ 0
    ∷ 0
    ∷ (question ++ (0xC0 ∷ 12 ∷ 0 ∷ 1 ∷ 0 ∷ 1 ∷ 0 ∷ 0 ∷ 0 ∷ 60 ∷ 0 ∷ 4 ∷ 192 ∷ 0 ∷ 2 ∷ 9 ∷ []))

response_runs : parse_response response 7 1 ≡ ok (v4 192 0 2 9 ∷ [])
unfolding parse_response u16_at skip_questions skip_name skip_loop continue turn turn_at
    follow_label follow_pointer read_answers address_of with_address nonempty slice
response_runs = refl

-- A pointer to itself.
abbrev loop_message : Bytes
loop_message = 0xC0 ∷ 0 ∷ []

loop_refused : skip_name loop_message 0 ≡ err pointer_limit
unfolding u16_at skip_name skip_loop continue turn turn_at follow_label follow_pointer
loop_refused = refl

skip_name-Ends_example : Ends 12 response (skip_name response 12)
skip_name-Ends_example = skip_name-Ends response 12

skip_name-encode_query_example :
    (past : ℕ) × (skip_name query 12 ≡ ok past) × (past + 4 ≡ length query)
skip_name-encode_query_example = skip_name-encode_query 7 1 name query query_runs

parse_response-IsAnswer_example :
    HeaderAgrees response 7 × ((v4 192 0 2 9 ∷ []) ≢ []) × All (IsAnswer 1) (v4 192 0 2 9 ∷ [])
parse_response-IsAnswer_example =
    parse_response-IsAnswer response 7 1 (v4 192 0 2 9 ∷ []) response_runs
