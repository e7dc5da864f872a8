-- ===== src/Shared/Errors.antt =====
-- packages/shared/src/errors/index.ts: the class hierarchy of errors. A message is a literal of
-- the source (or is built from one): `Reason` and `Resource` name the literals that the modelled
-- services use.
use Prim.Native.Nat.{ℕ}
use Prim.Native.String.{String}
use mathlib.Core.Bool.{Bool, true, false}

pub data Resource : Type 0 where
  edit_lock organization organization_member invitation project project_member : Resource
  test_suite test_case execution review_comment environment : Resource
  step precondition expected_result : Resource
  admin_text inviter_text invitation_text : Resource

pub data Reason : Type 0 where
  not_lock_owner not_authenticated insufficient_permissions : Reason
  organization_id_required organization_deleted : Reason
  project_id_required project_missing project_deleted : Reason
  already_member pending_exists already_processed invitation_expired not_invitee : Reason
  owner_role_fixed owner_not_removable not_invitation_org grace_period_over : Reason
  self_transfer not_owner : Reason
  bad_credentials account_locked email_not_verified two_factor_failed : Reason
  email_taken user_missing password_already_set password_not_set wrong_current_password : Reason
  reset_token_invalid reset_token_used reset_token_expired verification_token_invalid : Reason
  duplicate_ids ids_incomplete invalid_child_id : Reason
  admin_exists admin_invited invitation_accepted admin_invitation_expired : Reason
  self_role last_super_admin_role self_deletion last_super_admin_deletion : Reason
  not_resource_owner id_required id_format suite_deleted no_token user_not_found : Reason

-- The descriptions that `OAuthError` is raised with.
pub data OauthReason : Type 0 where
  code_not_found code_expired code_already_used client_mismatch redirect_mismatch : OauthReason
  verifier_failed resource_mismatch refresh_not_found refresh_expired refresh_revoked : OauthReason
  scope_exceeded challenge_method_unsupported redirect_unregistered : OauthReason

pub record LockHolder : Type 0 where
  pub id : ℕ
  pub name : String

-- What a method can throw: the subclasses of `AppError`, the base class itself with its own status,
-- and what is no `AppError`: `OAuthError` of oauth.service.ts, the two errors of the database
-- client, and the RangeError of `crypto.timingSafeEqual`.
pub data Error : Type 0 where
  validation authentication authorization bad_request conflict business : Reason → Error
  internal service_unavailable : Error
  not_found : Resource → Error
  lock_conflict : LockHolder → ℕ → Error
  base : ℕ → Reason → Error
  oauth_error : OauthReason → Error
  unique_violation record_missing range_error : Error

-- The `statusCode` that each class passes to its super constructor; the database client's errors
-- have none.
pub status_code : Error → ℕ
status_code (validation _) = 400
status_code (authentication _) = 401
status_code (authorization _) = 403
status_code (not_found _) = 404
status_code (bad_request _) = 400
status_code (conflict _) = 409
status_code (business _) = 400
status_code (lock_conflict _ _) = 409
status_code internal = 500
status_code service_unavailable = 503
status_code (base status _) = status
status_code (oauth_error _) = 400
status_code range_error = 500
status_code unique_violation = 500
status_code record_missing = 500

pub is_app_error : Error → Bool
is_app_error (oauth_error _) = false
is_app_error range_error = false
is_app_error unique_violation = false
is_app_error record_missing = false
is_app_error internal = true
is_app_error _ = true

pub is_operational_error : Error → Bool
is_operational_error (oauth_error _) = false
is_operational_error range_error = false
is_operational_error unique_violation = false
is_operational_error record_missing = false
is_operational_error internal = false
is_operational_error _ = true
