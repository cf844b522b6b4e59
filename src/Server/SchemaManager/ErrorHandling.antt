-- ===== src/Server/SchemaManager/ErrorHandling.antt =====
-- GraphQLSchemaManager.ts: the handler of the errors of resolvers.
use graphqlade.Common.{
  subst, ◌∙◌, sym, ap, Option-cases, Result-cases, inl, inr, String, ◌≡◌, refl, ◌∙◌, Bool, true,
  false, Option, none, some, Value, Error, Thrown, error, Result, ok, thrown, string_eq,
}
use graphqlade.Util.Guards.{to_error}
use graphqlade.Util.ResolverMerging.Lookup.{otherwise}
use graphqlade.Server.SchemaManager.{SchemaField, Types, is_hidden}
use graphqlade.Server.SchemaManager.Everywhere.{update_types, field_at, field_at-update_types}

-- What a resolver returns: a value, or a promise, by what becomes of it.
pub data Answer (R : Type 0) : Type 0 where
  plain : R → Answer R
  promise : Result R → Answer R

-- `Call` is what a resolver is called with: the data, the arguments, the context, the info.
abbrev pub Resolve : Type 0 → Type 0 → Type 0
Resolve Call R = Call → Result (Answer R)

abbrev pub catch : {R : Type 0} → (Thrown → Thrown) → Result R → Result R
catch f (ok r) = ok r
catch f (thrown e) = thrown (f e)

-- The `try` block and the `catch` on what it returns.
abbrev pub guard : {R : Type 0} → (Thrown → Thrown) → Result (Answer R) → Result (Answer R)
guard f (thrown err) = thrown (f err)
guard f (ok (plain result)) = ok (plain result)
guard f (ok (promise result)) = ok (promise (catch f result))

-- What awaiting the call of a resolver gives.
abbrev pub settle : {R : Type 0} → Result (Answer R) → Result R
settle (thrown e) = thrown e
settle (ok (plain r)) = ok r
settle (ok (promise result)) = result

abbrev pub is_promise : {R : Type 0} → Result (Answer R) → Bool
is_promise (ok (promise result)) = true
is_promise r = false

module _ {Call R : Type 0} (stringify : Value → String) (default_resolver : Resolve Call R)
    (handler : Error → Call → Result (Option Error)) where
  -- `handler(toError(err), …)`, and then `throw newErr ?? err`.
  unfoldable pub handled : Call → Thrown → Thrown
  unfolding to_error
  handled call err = elim (handler (to_error stringify err) call) [
    | thrown e ↦ e
    | ok none ↦ err
    | ok (some new_err) ↦ error new_err
  ]

  unfoldable pub wrap : Resolve Call R → Resolve Call R
  unfolding handled
  wrap original_resolve call = guard (handled call) (original_resolve call)

  -- What executing a field calls.
  abbrev pub resolver_of : SchemaField (Resolve Call R) → Resolve Call R
  resolver_of field = otherwise field.resolve default_resolver

  unfoldable pub handle_on_field :
      String → SchemaField (Resolve Call R) → SchemaField (Resolve Call R)
  unfolding wrap
  handle_on_field name field = record field { resolve = some (wrap (resolver_of field)) }

  unfoldable pub set_resolver_error_handler : Types (Resolve Call R) → Types (Resolve Call R)
  unfolding handle_on_field update_types
  set_resolver_error_handler types = update_types handle_on_field types

  settle-guard :
      (f : Thrown → Thrown) (r : Result (Answer R))
      → (settle (guard f r) ≡ catch f (settle r)) × (is_promise (guard f r) ≡ is_promise r)
  settle-guard f (thrown err) = (refl, refl)
  settle-guard f (ok (plain result)) = (refl, refl)
  settle-guard f (ok (promise result)) = (refl, refl)

  -- What becomes of a result under the handler: what is thrown, or rejected with, is replaced by the
  -- error that the handler returns, or by what it throws; or stays if it returns none.
  pub data IsReported (call : Call) : Result R → Result R → Type 0 where
    returned : (result : R) → IsReported call (ok result) (ok result)
    kept :
        (err : Thrown)
        → handler (to_error stringify err) call ≡ ok none
        → IsReported call (thrown err) (thrown err)
    replaced :
        (err : Thrown) (new_err : Error)
        → handler (to_error stringify err) call ≡ ok (some new_err)
        → IsReported call (thrown err) (thrown (error new_err))
    failed :
        (err t : Thrown)
        → handler (to_error stringify err) call ≡ thrown t
        → IsReported call (thrown err) (thrown t)

  catch-IsReported :
      (call : Call) (result : Result R) → IsReported call result (catch (handled call) result)
  unfolding handled
  catch-IsReported call (ok r) = returned r
  catch-IsReported call (thrown err) = elim (Result-cases (handler (to_error stringify err) call)) [
    | inr (t, e) ↦ rw (e, handled) (failed err t e)
    | inl (answer, e) ↦ elim (Option-cases answer) [
      | inl silent ↦ rw (e, silent, handled) (kept err (e ∙ ap ok silent))
      | inr (new_err, new) ↦ rw (e, new, handled) (replaced err new_err (e ∙ ap ok new))
    ]
  ]

  -- What a field does under the handler, compared with what it did before.
  abbrev pub IsHandled : SchemaField (Resolve Call R) → SchemaField (Resolve Call R) → Type 0
  IsHandled before after =
      (after.subscribe ≡ before.subscribe)
      × ((call : Call)
          → IsReported call (settle (resolver_of before call)) (settle (resolver_of after call))
            × (is_promise (resolver_of after call) ≡ is_promise (resolver_of before call)))

  pub handle_on_field-IsHandled :
      (name : String) (field : SchemaField (Resolve Call R))
      → IsHandled field (handle_on_field name field)
  unfolding handle_on_field wrap
  handle_on_field-IsHandled name field = (
    refl,
    λ call.
        let result = resolver_of field call in
        let (same, alike) = settle-guard (handled call) result in
        (
          subst (IsReported call (settle result)) (sym same)
              (catch-IsReported call (settle result)),
          alike,
        ),
  )

  -- After `setResolverErrorHandler`, each field of each type whose name does not start with two
  -- underscores gives the same results as before, in a promise if it did so before; what it throws,
  -- or rejects with, goes through the handler, and is replaced by what the handler throws or
  -- returns, if it does either. `subscribe` stays as it was.
  pub set_resolver_error_handler-IsHandled :
      (type name : String) (types : Types (Resolve Call R)) (field : SchemaField (Resolve Call R))
      → is_hidden type ≡ false
      → field_at type name types ≡ some field
      → (after : SchemaField (Resolve Call R)) × (field_at type name
            (set_resolver_error_handler types)
          ≡ some after)
        × IsHandled field after
  unfolding set_resolver_error_handler
  set_resolver_error_handler-IsHandled type name types field visible found = (
    handle_on_field name field,
    field_at-update_types handle_on_field type name types ∙ rw (found, visible) refl,
    handle_on_field-IsHandled name field,
  )
