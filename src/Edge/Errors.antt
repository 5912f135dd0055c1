-- ===== src/Edge/Errors.antt =====
-- middlewares/error.middleware.ts: what a client is told of an error.
use multi_tenant_project_man.Base.{
  ℕ, String, Bool, true, false, ◌==◌, ◌&&◌, not, ◌≡◌, ◌⊎◌, ◌<◌, arith, if◌then◌else◌, inl, inr,
  refl,
}
use multi_tenant_project_man.Base.Error.{
  AppError, bad_request, unauthorized, forbidden, not_found, conflict, service_unavailable,
  validation_error, internal_error, status_code,
}

-- What a handler is called with: an AppError with its message, an error of Prisma with its code, or
-- any other, each with the text that it carries.
pub data Thrown : Type 0 where
  app_error : AppError → (message : String) → Thrown
  prisma_error : (code message : String) → Thrown
  other_error : (message : String) → Thrown

-- `details`, less the stack that is shown in development alone
pub record ErrorResponse : Type 0 where
  pub status : ℕ
  pub code : String
  pub message : String
  pub shows_fields : Bool
  pub shows_stack : Bool

-- `err.code`
unfoldable pub error_code : AppError → String
error_code (bad_request code) = code
error_code (unauthorized code) = code
error_code (forbidden code) = code
error_code (not_found code) = code
error_code (conflict code) = code
error_code (service_unavailable code) = code
error_code validation_error = "VALIDATION_ERROR"
error_code internal_error = "INTERNAL_ERROR"

-- `err instanceof ValidationError`, `err.isOperational`
abbrev has_fields : AppError → Bool
has_fields validation_error = true
has_fields _ = false

unfoldable pub is_operational : AppError → Bool
is_operational internal_error = false
is_operational _ = true

abbrev answer : ℕ → String → String → Bool → ErrorResponse
answer status code message shows_fields = record {
  status = status;
  code = code;
  message = message;
  shows_fields = shows_fields;
  shows_stack = false;
}

-- The answer before the environment is looked at
unfoldable pub described : Thrown → ErrorResponse
unfolding status_code error_code
described (app_error e message) = answer (status_code e) (error_code e) message (has_fields e)
described (prisma_error code message) =
    if code == "P2025"
    then answer 404 "NOT_FOUND" "Resource not found" false
    else if code == "P2002"
    then answer 409 "CONFLICT" "A resource with this unique constraint already exists" false
    else if code == "P2003"
    then answer 400 "BAD_REQUEST" "Related resource not found or reference constraint violated"
        false
    else answer 500 "INTERNAL_ERROR" "Internal server error" false
described (other_error message) = answer 500 "INTERNAL_ERROR" "Internal server error" false

abbrev shown_in_production : Thrown → Bool
shown_in_production (app_error e message) = is_operational e
shown_in_production _ = false

-- `errorHandler`
unfoldable pub error_handler : (node_env : String) → Thrown → ErrorResponse
unfolding described is_operational
error_handler node_env e =
    let told =
      if node_env == "production" && not (shown_in_production e)
      then record (described e) { message = "Internal server error"; shows_fields = false }
      else described e in
    record told { shows_stack = node_env == "development" }

-- In production, the text that an error carries is told only where it is that of an operational
-- AppError: of any other error, two with other texts are answered alike, without details.
pub production_hides :
    (e : AppError) (code text text' : String)
    → (error_handler "production" (other_error text)
        ≡ error_handler "production" (other_error text'))
      × (error_handler "production" (prisma_error code text)
          ≡ error_handler "production" (prisma_error code text'))
      × (is_operational e ≡ false
          → error_handler "production" (app_error e text)
            ≡ error_handler "production" (app_error e text'))
      × (is_operational e ≡ true
          → ((error_handler "production" (app_error e text)).message ≡ text)
            × ((error_handler "production" (app_error e text)).status < 500
                ⊎ (e ≡ service_unavailable (error_code e))))
unfolding error_handler is_operational described status_code error_code
production_hides (bad_request c) code text text' =
    (refl, refl, λ h. absurd cc, λ h. (refl, inl (omega arith)))
production_hides (unauthorized c) code text text' =
    (refl, refl, λ h. absurd cc, λ h. (refl, inl (omega arith)))
production_hides (forbidden c) code text text' =
    (refl, refl, λ h. absurd cc, λ h. (refl, inl (omega arith)))
production_hides (not_found c) code text text' =
    (refl, refl, λ h. absurd cc, λ h. (refl, inl (omega arith)))
production_hides (conflict c) code text text' =
    (refl, refl, λ h. absurd cc, λ h. (refl, inl (omega arith)))
production_hides (service_unavailable c) code text text' =
    (refl, refl, λ h. absurd cc, λ h. (refl, inr refl))
production_hides validation_error code text text' =
    (refl, refl, λ h. absurd cc, λ h. (refl, inl (omega arith)))
production_hides internal_error code text text' = (refl, refl, λ h. refl, λ h. absurd cc)
