-- ===== src/JsonPatch/Sequence.antt =====
-- A patch is applied one operation after the other, up to the first that fails.
use http_rfc_utils.Common.{ℕ, suc, ◌+◌, List, [], ◌∷◌, ◌++◌, length, inl, inr, ◌≡◌, arith}
use http_rfc_utils.Common.Results.{◌>>=◌, Result-cases}
use http_rfc_utils.Json.{Value}
use http_rfc_utils.JsonPatch.Document.{Operation}
use http_rfc_utils.JsonPatch.{apply_operation, apply_operations}

-- Applying two lists of operations one behind the other is applying the first, and the second to
-- its result at the indices that follow; if the first fails, the second is not looked at.
pub apply_operations-append :
    (index : ℕ) (working : Value) (xs ys : List Operation)
    → apply_operations index working (xs ++ ys)
      ≡ (apply_operations index working xs >>= λ next. apply_operations (index + length xs) next ys)
unfolding apply_operations
apply_operations-append index working [] ys = ground arith
apply_operations-append index working (x ∷ xs) ys =
    elim (Result-cases (apply_operation index working x)) [
      | inl (next, e) ↦ ground (arith, e, apply_operations-append (suc index) next xs ys)
      | inr (bad, e) ↦ ground (arith, e)
    ]
