-- ===== src/Ws/SocketClient/Callbacks.antt =====
-- The loop of `subscribeAsync` in src/ws/GraphQLWebSocketClient.ts, and src/util/GraphQLResultError.ts.
-- What a callback throws, the text of values and the comparison of a value with 0 are parameters.
use graphqlade.Common.{
  String, ◌≡◌, refl, inl, inr, Bool, true, false, not, Option, none, some, List, [], ◌∷◌, map,
  if◌then◌else◌, if_split, Value, undefined, null, str, arr, obj, item, no_items, Fields, prop,
  truthy, Thrown, Error, Result, ok, thrown, ◌>>=◌, throw_type_error, concat, join, ◌===◌,
  string_eq, Option-cases,
}
use graphqlade.Client.HttpClient.{messages_of}

-- `GraphQLResultError`
pub record ResultError : Type 0 where
  pub message : String
  pub result : Fields

-- A call of `onData`, or of `onError` with the errors of a result or with what was caught.
pub data Callback : Type 0 where
  on_data : Value → Callback
  on_result_error : ResultError → Callback
  on_error : Error → Callback

-- How the iterator ends: it is finished, returned from, or throws.
pub data Ending : Type 0 where
  finishes : Ending
  breaks : Thrown → Ending

module _ (show : Value → String) (is_positive : Value → Bool) where
  -- `(result.errors ?? []).length > 0`
  unfoldable pub has_errors : Value → Bool
  has_errors (arr no_items) = false
  has_errors (arr (item v vs)) = true
  has_errors (str s) = not (s === "")
  has_errors (obj fs) = is_positive (prop "length" fs)
  has_errors _ = false

  -- What a message contributes to `join`.
  abbrev message_text : Value → String
  message_text undefined = ""
  message_text null = ""
  message_text v = show v

  abbrev error_message : List Value → String
  error_message messages =
      concat ("GraphQL error(s): " ∷ join "; " (map message_text messages) ∷ [])

  -- `new GraphQLResultError(result)`, for errors that are there.
  unfoldable pub result_error : Fields → Value → Result ResultError
  result_error result (arr vs) = messages_of vs >>= λ messages.
      ok (record { message = error_message messages; result = result })
  result_error result _ = throw_type_error "result.errors?.map is not a function"

  -- The body of the loop, as far as the callback that it calls.
  unfoldable pub callback_of : Fields → Result (Option Callback)
  unfolding has_errors result_error
  callback_of result =
      if has_errors (prop "errors" result)
      then (result_error result (prop "errors" result) >>= λ e. ok (some (on_result_error e)))
      else if truthy (prop "data" result)
      then ok (some (on_data (prop "data" result)))
      else ok none

  module _ (to_error : Thrown → Error) (throws : Callback → Option Thrown) where
    -- `catch`
    abbrev caught : Thrown → List Callback
    caught t = on_error (to_error t) ∷ []

    abbrev call : Callback → List Callback → List Callback
    call callback rest = callback ∷ elim (throws callback) [ none ↦ rest | some t ↦ caught t ]

    visit : Result (Option Callback) → List Callback → List Callback
    visit (thrown t) rest = caught t
    visit (ok none) rest = rest
    visit (ok (some callback)) rest = call callback rest

    -- The callbacks that are called for the results of an iterator and its end, in order.
    unfoldable pub consume : List Fields → Ending → List Callback
    unfolding visit callback_of
    consume [] finishes = []
    consume [] (breaks t) = caught t
    consume (result ∷ results) ending = visit (callback_of result) (consume results ending)

    -- Nothing follows a call of `onError` with an error that was caught.
    abbrev pub StopsAtError : List Callback → Type 0
    StopsAtError [] = Unit
    StopsAtError (on_error e ∷ callbacks) = callbacks ≡ []
    StopsAtError (on_data v ∷ callbacks) = StopsAtError callbacks
    StopsAtError (on_result_error e ∷ callbacks) = StopsAtError callbacks

    -- The loop makes no such call itself.
    IsOfResult : Callback → Type 0
    IsOfResult (on_error e) = ⊥
    IsOfResult _ = Unit

    call-StopsAtError :
        (callback : Callback) (rest : List Callback)
        → IsOfResult callback
        → StopsAtError rest
        → StopsAtError (call callback rest)
    unfolding IsOfResult
    call-StopsAtError (on_error e) rest own h = absurd own
    call-StopsAtError (on_data v) rest own h = elim (Option-cases (throws (on_data v))) [
      | inl quiet ↦ rw quiet h
      | inr (t, loud) ↦ rw loud refl
    ]
    call-StopsAtError (on_result_error e) rest own h =
        elim (Option-cases (throws (on_result_error e))) [
          | inl quiet ↦ rw quiet h
          | inr (t, loud) ↦ rw loud refl
        ]

    visit_checked :
        (result : Fields) (checked : Result ResultError) (rest : List Callback)
        → StopsAtError rest
        → StopsAtError (visit (checked >>= λ e. ok (some (on_result_error e))) rest)
    unfolding visit IsOfResult
    visit_checked result (ok e) rest h = call-StopsAtError (on_result_error e) rest tt h
    visit_checked result (thrown t) rest h = refl

    visit-StopsAtError :
        (result : Fields) (rest : List Callback)
        → StopsAtError rest
        → StopsAtError (visit (callback_of result) rest)
    unfolding visit callback_of IsOfResult
    visit-StopsAtError result rest h =
        let P = λ (r : Result (Option Callback)). StopsAtError (visit r rest) in
        if_split P (has_errors (prop "errors" result))
          (λ _. visit_checked result (result_error result (prop "errors" result)) rest h)
          (λ _.
            if_split P (truthy (prop "data" result))
              (λ _. call-StopsAtError (on_data (prop "data" result)) rest tt h) (λ _. h))

    -- Whatever the results, the end of the iterator and what callbacks throw, the error that the
    -- loop catches is the last thing that the user is told.
    pub consume-StopsAtError :
        (results : List Fields) (ending : Ending) → StopsAtError (consume results ending)
    unfolding consume
    consume-StopsAtError [] finishes = tt
    consume-StopsAtError [] (breaks t) = refl
    consume-StopsAtError (result ∷ results) ending =
        visit-StopsAtError result (consume results ending) (consume-StopsAtError results ending)
