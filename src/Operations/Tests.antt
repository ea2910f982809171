-- ===== src/Operations/Tests.antt =====
-- Examples of an administrator's operations.
use document_generation_anek.Prelude.{◌≡◌, refl, none, [], ◌∷◌}
use document_generation_anek.Models.{AuthSession}
use document_generation_anek.Result.{ok}
use document_generation_anek.Database.{Db}
use document_generation_anek.Audit.{log_event}
use document_generation_anek.Auth.Service.{user_by_id, set_active, revoke_all_for_user}
use document_generation_anek.Operations.{UserDisableResponse, disable_user}
use document_generation_anek.Operations.LockOut.{IsLockedOut, disabled_db, disable_user-refresh}
use document_generation_anek.Fixtures.{alice, billing}

abbrev login_session : AuthSession
login_session = record {
  id = 30;
  user_id = 5;
  refresh_token_hash = "hash";
  expires_at = 900;
  revoked_at = none;
  last_used_at = none;
}

abbrev staff : Db
staff = record billing { users = alice ∷ []; sessions = login_session ∷ [] }

abbrev answer : UserDisableResponse
answer = record { id = 5; organization_id = 7; email = "alice@acme.kz"; revoked_session_count = 1 }

abbrev locked_out : Db
locked_out = disabled_db 100 7 6 alice staff

disabling : disable_user 100 7 5 6 staff ≡ ok (answer, locked_out)
unfolding disable_user user_by_id set_active revoke_all_for_user log_event
disabling = refl

disable_user-refresh_example : IsLockedOut 5 locked_out
disable_user-refresh_example = disable_user-refresh 100 7 5 6 answer staff locked_out disabling
