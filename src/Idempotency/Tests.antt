-- ===== src/Idempotency/Tests.antt =====
-- The theorems on src/repos/idempotency.py at a table of one tenant.
use neuro_voice.Prelude.{
  ℕ, ◌≡◌, ◌≢◌, ◌↔◌, refl, true, none, some, [], ◌∷◌, arith, is_some, find, select_where,
}
use neuro_voice.Idempotency.{
  Row, Request, replay, integrity_error, new_row, has_key, get, reserve, reserve_or_get, fail,
  marked_failed,
}
use neuro_voice.Idempotency.Replay.{
  get-reserve, reserve_or_get_race, reserve_or_get_raises, still, get-fail,
}
use neuro_voice.Idempotency.Isolation.{UniqueKeys, reserves, step, is_of, step_isolated}

abbrev request : Request
request = record { request_id = 3; api_key_id = 2; request_hash = 11; ttl = some 500 }

abbrev other_body : Request
other_body = record { request_id = 3; api_key_id = 2; request_hash = 12; ttl = none }

abbrev row : Row
row = new_row 1 request 80

-- The key of another tenant.
abbrev foreign : Row
foreign = new_row 2 (record { request_id = 4; api_key_id = 6; request_hash = 13; ttl = none }) 70

reserves_row : reserve 1 request 80 (foreign ∷ []) ≡ some (row, row ∷ foreign ∷ [])
unfolding reserve
reserves_row = refl

unseen : get 1 3 79 (foreign ∷ []) ≡ none
unfolding get
unseen = refl

found : get 1 3 100 (row ∷ foreign ∷ []) ≡ some row
unfolding get
found = refl

foreign-UniqueKeys : UniqueKeys (foreign ∷ [])
foreign-UniqueKeys k = ground arith

get-reserve_example : get 1 3 100 (row ∷ foreign ∷ []) ≡ some row
get-reserve_example =
    get-reserve 1 80 100 request (foreign ∷ []) (row ∷ foreign ∷ []) row reserves_row (omega arith)

reserve_or_get_race_example :
    reserve_or_get 1 request
      (still 79 (foreign ∷ []))
      (still 81 (row ∷ foreign ∷ []))
      (still 82 (row ∷ foreign ∷ []))
      (still 83 [])
    ≡ (replay row, row ∷ foreign ∷ [])
reserve_or_get_race_example =
    reserve_or_get_race 1 80 request request (foreign ∷ []) (row ∷ foreign ∷ []) row
      (still 79 (foreign ∷ [])) (still 83 []) 81 82 reserves_row refl unseen (omega arith)

-- The reservation has expired and has not been purged.
reserve_or_get_raises_example :
    (reserve_or_get 1 request
        (still 600 (row ∷ []))
        (still 600 (row ∷ []))
        (still 600 (row ∷ []))
        (still 600 (row ∷ []))
      ≡ (integrity_error, row ∷ []))
    ↔ ((get 1 3 600 (row ∷ []) ≡ none) × (is_some (find (has_key 3) (row ∷ [])) ≡ true))
reserve_or_get_raises_example = reserve_or_get_raises 1 600 request (row ∷ [])

get-fail_example : get 1 3 100 (fail 1 3 100 (row ∷ foreign ∷ [])) ≡ some (marked_failed row)
get-fail_example = get-fail 1 3 100 (row ∷ foreign ∷ []) row found

one_two : ◌≢◌ {A = ℕ} 1 2
one_two = omega arith

step_isolated_example :
    select_where (is_of 2) (step 1 80 (reserves request) (foreign ∷ []))
    ≡ select_where (is_of 2) (foreign ∷ [])
step_isolated_example =
    step_isolated 1 2 80 (reserves request) (foreign ∷ []) one_two foreign-UniqueKeys
