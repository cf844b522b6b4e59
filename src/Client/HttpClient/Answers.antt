-- ===== src/Client/HttpClient/Answers.antt =====
-- Which responses a GraphQLClient takes as results.
use graphqlade.Common.{
  ℕ, String, ◌≡◌, refl, sym, ap, subst, ◌⊎◌, inl, inr, ◌↔◌, Bool, true, false, if◌then◌else◌,
  Option, none, some, List, Value, Items, undefined, null, bool, num, str, arr, obj, item, no_items,
  Fields, prop, truthy, Thrown, Error, Result, ok, thrown, Option-cases, arith, string_eq,
}
use graphqlade.Client.HttpClient.{
  RequestInit, Client, Response, returned, has_prop, as_result, filter_items, messages_of,
  filter_of, check_list, check_filtered, check_unlisted, check_result, check_json, refuse,
  parse_response,
}

-- What GraphQL allows as `errors` of a result.
abbrev pub IsErrorList : Value → Type 0
IsErrorList undefined = Unit
IsErrorList null = Unit
IsErrorList (arr vs) = Unit
IsErrorList _ = ⊥

-- Every item fails a test.
abbrev pub AllFail : (Value → Bool) → Items → Type 0
AllFail p no_items = Unit
AllFail p (item v vs) = (p v ≡ false) × AllFail p vs

-- No error counts.
abbrev pub IsClean : Option (Value → Bool) → Value → Type 0
IsClean none (arr vs) = vs ≡ no_items
IsClean (some p) (arr vs) = AllFail p vs
IsClean filter v = Unit

-- A response that is read as the result `result`.
pub record IsAnswer (filter : Option (Value → Bool)) (json : Result Value) (result : Fields)
    : Type 0 where
  pub read : json ≡ ok (obj result)
  pub shaped : (has_prop "data" result ≡ true) ⊎ (has_prop "errors" result ≡ true)
  pub clean : IsClean filter (prop "errors" result)

filter_items-AllFail : (p : Value → Bool) (vs : Items) → filter_items p vs ≡ no_items → AllFail p vs
unfolding filter_items
filter_items-AllFail p no_items e = tt
filter_items-AllFail p (item v vs) e = ground (arith, filter_items-AllFail p vs)

AllFail-filter_items : (p : Value → Bool) (vs : Items) → AllFail p vs → filter_items p vs ≡ no_items
unfolding filter_items
AllFail-filter_items p no_items h = refl
AllFail-filter_items p (item v vs) (fails, h) = rw fails (AllFail-filter_items p vs h)

module _ (to_string : ℕ → String) (show : Value → String) (is_positive : Value → Bool) where
  refuse-ne-returned :
      (response : Response) (result other : Fields) (messages : Result (List Value))
      → refuse to_string show is_positive response result messages ≡ returned other
      → ⊥
  unfolding refuse
  refuse-ne-returned response result other (ok messages) e = cc
  refuse-ne-returned response result other (thrown t) e = cc

  check_list_iff :
      (response : Response) (result other : Fields) (vs : Items)
      → (check_list to_string show is_positive response result vs ≡ returned other)
        ↔ ((vs ≡ no_items) × (result ≡ other))
  unfolding check_list
  check_list_iff response result other no_items = (λ e. (refl, cc), λ h. cc)
  check_list_iff response result other (item v vs) =
      (λ e. absurd (refuse-ne-returned response result other (messages_of (item v vs)) e), λ h. cc)

  check_filtered_iff :
      (filter : Option (Value → Bool)) (response : Response) (result other : Fields) (vs : Items)
      → (check_filtered to_string show is_positive filter response result (arr vs) ≡ returned other)
        ↔ (IsClean filter (arr vs) × (result ≡ other))
  unfolding check_filtered
  check_filtered_iff none response result other vs = check_list_iff response result other vs
  check_filtered_iff (some p) response result other vs =
      let (only, any) = check_list_iff response result other (filter_items p vs) in
      (
        λ e. (filter_items-AllFail p vs (only e).0, (only e).1),
        λ h. any (AllFail-filter_items p vs h.0, h.1),
      )

  truthy_arr : (vs : Items) → truthy (arr vs) ≡ true
  unfolding truthy
  truthy_arr vs = refl

  -- The part of `parseResponse` that looks at the errors.
  check_errors_iff :
      (filter : Option (Value → Bool)) (response : Response) (result other : Fields) (v : Value)
      → IsErrorList v
      → ((if truthy v
            then check_filtered to_string show is_positive filter response result v
            else returned result)
          ≡ returned other)
        ↔ (IsClean filter v × (result ≡ other))
  unfolding truthy
  check_errors_iff none response result other undefined h = (λ e. (tt, cc), λ h. cc)
  check_errors_iff (some p) response result other undefined h = (λ e. (tt, cc), λ h. cc)
  check_errors_iff none response result other null h = (λ e. (tt, cc), λ h. cc)
  check_errors_iff (some p) response result other null h = (λ e. (tt, cc), λ h. cc)
  check_errors_iff filter response result other (arr vs) h =
      check_filtered_iff filter response result other vs
  check_errors_iff filter response result other (str s) h = absurd h
  check_errors_iff filter response result other (num s) h = absurd h
  check_errors_iff filter response result other (bool s) h = absurd h
  check_errors_iff filter response result other (obj s) h = absurd h

  -- Nothing but the object that was read is returned.
  check_errors_same :
      (filter : Option (Value → Bool)) (response : Response) (result other : Fields) (v : Value)
      → (if truthy v
          then check_filtered to_string show is_positive filter response result v
          else returned result)
        ≡ returned other
      → result ≡ other
  unfolding truthy check_filtered check_unlisted
  check_errors_same filter response result other (arr vs) e =
      ((check_filtered_iff filter response result other vs).0 e).1
  check_errors_same (some p) response result other v e = ground arith
  check_errors_same none response result other v e = ground arith

  as_result_iff :
      (json : Value) (result : Fields)
      → (as_result json ≡ some result) ↔ (
          (json ≡ obj result)
          × ((has_prop "data" result ≡ true) ⊎ (has_prop "errors" result ≡ true)))
  unfolding as_result
  as_result_iff json result = ground arith

  module _ (to_error : Thrown → Error) where
    check_result_iff :
        (filter : Option (Value → Bool)) (response : Response) (json : Value) (result : Fields)
        → IsErrorList (prop "errors" result)
        → (check_result to_string show is_positive filter response json ≡ returned result)
          ↔ IsAnswer filter (ok json) result
    unfolding check_result
    check_result_iff filter response json result list = elim (Option-cases (as_result json)) [
      | inl absent ↦ (
        λ e. cc (rw (absent, check_result) at e),
        λ h. cc (absent, (as_result_iff json result).1 (cc h.read, h.shaped)),
      )
      | inr (found, here) ↦
          let (object, shaped) = (as_result_iff json found).0 here in
          let list_at = λ (fs : Fields) (e : fs ≡ result).
            subst (λ fs. IsErrorList (prop "errors" fs)) (sym e) list in
          (
            λ e.
                let e' = rw (here, check_result) at e in
                let same =
                  check_errors_same filter response found result (prop "errors" found) e' in
                let (clean, _) =
                  (check_errors_iff filter response found result (prop "errors" found)
                      (list_at found same)).0
                    e' in
                subst (IsAnswer filter (ok json)) same
                  (record { read = ap ok object; shaped = shaped; clean = clean }),
            λ h.
                let same : found ≡ result = cc (object, h.read) in
                rw (here, check_result)
                  ((check_errors_iff filter response found result (prop "errors" found)
                      (list_at found same)).1
                    (subst (λ fs. IsClean filter (prop "errors" fs)) (sym same) h.clean, same)),
          )
    ]

    check_json_iff :
        (filter : Option (Value → Bool)) (response : Response) (json : Result Value)
        (result : Fields)
        → IsErrorList (prop "errors" result)
        → (check_json to_string show is_positive to_error filter response json ≡ returned result)
          ↔ IsAnswer filter json result
    unfolding check_json
    check_json_iff filter response (thrown t) result list = (λ e. cc, λ h. cc h.read)
    check_json_iff filter response (ok json) result list =
        check_result_iff filter response json result list

    -- Where `errors` is what GraphQL allows there, a response is returned as a result exactly if it
    -- is an object with `data` or `errors` whose errors, where there are any, all fail the filter:
    -- that of the call, or else that of the client.
    pub parse_response_iff :
        (client : Client) (response : Response) (init : RequestInit) (result : Fields)
        → IsErrorList (prop "errors" result)
        → (parse_response to_string show is_positive to_error client response init
            ≡ returned result)
          ↔ IsAnswer (filter_of client init) response.json result
    unfolding parse_response
    parse_response_iff client response init result list =
        check_json_iff (filter_of client init) response response.json result list
