-- ===== src/Dns/Tests.antt =====
-- A query for the address of `a.io`, and a response to it with one address twice.
use csqtt_android.Shared.{
  ℕ, ◌≡◌, refl, List, [], ◌∷◌, ◌++◌, some, none, length, drop, to_be, u16_at, same_bytes,
}
use csqtt_android.Dns.{
  ok, refused, v4, build_query, trim_dots, split_dots, onto_first, write_labels, is_label, is_ascii,
  skip_questions, skip_name, skip_from, skip_label, past, and_then, read_u16, read_record,
  read_answers, push_record, push_new, contains, same_address, flags_refused, parse_response,
}
use csqtt_android.Dns.Written.{skip_questions-build_query}
use csqtt_android.Dns.Answers.{Ends, Few, parse_response-Ends}

-- `a.io.`
abbrev host : List ℕ
host = 97 ∷ 46 ∷ 105 ∷ 111 ∷ 46 ∷ []

abbrev query : List ℕ
query =
    1 ∷ 2 ∷ 1 ∷ 0 ∷ 0 ∷ 1 ∷ 0 ∷ 0 ∷ 0 ∷ 0 ∷ 0 ∷ 0 ∷ 1 ∷ 97 ∷ 2 ∷ 105 ∷ 111 ∷ 0 ∷ 0 ∷ 1 ∷ 0 ∷ 1 ∷ []

is_query : build_query host 258 1 ≡ some query
unfolding build_query trim_dots split_dots onto_first write_labels is_label is_ascii to_be
is_query = refl

no_host : build_query (46 ∷ []) 258 1 ≡ none
unfolding build_query trim_dots
no_host = refl

empty_label : build_query (97 ∷ 46 ∷ 46 ∷ 97 ∷ []) 258 1 ≡ none
unfolding build_query trim_dots split_dots onto_first write_labels is_label is_ascii
empty_label = refl

-- Two answers.
abbrev header : List ℕ
header = 1 ∷ 2 ∷ 129 ∷ 128 ∷ 0 ∷ 1 ∷ 0 ∷ 2 ∷ 0 ∷ 0 ∷ 0 ∷ 0 ∷ []

-- The name is a pointer to the question's.
abbrev answer : List ℕ
answer = 192 ∷ 12 ∷ 0 ∷ 1 ∷ 0 ∷ 1 ∷ 0 ∷ 0 ∷ 0 ∷ 60 ∷ 0 ∷ 4 ∷ 10 ∷ 66 ∷ 66 ∷ 1 ∷ []

abbrev response : List ℕ
response = header ++ (drop 12 query ++ (answer ++ answer))

skip_questions-build_query_example : skip_questions 1 response 12 ≡ ok (length query)
skip_questions-build_query_example =
    skip_questions-build_query host 258 1 query header (answer ++ answer) is_query refl

one_address : parse_response response 258 ≡ ok (v4 (10 ∷ 66 ∷ 66 ∷ 1 ∷ []) ∷ [])
unfolding parse_response flags_refused skip_questions skip_name skip_from skip_label past and_then
    read_u16 read_record read_answers push_record push_new contains same_address same_bytes
one_address = refl

other_id : parse_response response 259 ≡ refused
unfolding parse_response flags_refused
other_id = refl

parse_response-Ends_example : Ends (Few (u16_at response 6)) (parse_response response 258)
parse_response-Ends_example = parse_response-Ends response 258
