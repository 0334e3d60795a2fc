-- ===== src/Server/Auth.antt =====
-- server/auth.go, and the middleware `requireAuth` of server/router.go. Times, fresh tokens and ids are
-- arguments; texts in base64 stand decoded, `none` where the decoding fails.
use go_proton_api.Base.{
  ℕ, String, string_eq, Option, none, some, List, [], ◌∷◌, ◌==◌, if◌then◌else◌,
}
use go_proton_api.Backend.Exec.{pure, panic, ◌>>=◌}
use go_proton_api.Backend.Sessions.{
  Login, delete_session, get_sessions, new_auth, new_auth_info, new_auth_ref, verify_auth,
}
use go_proton_api.Server.Response.{
  Handler, abort, answer, bad_request, bind_json, internal_server_error, ok, unauthorized,
  unprocessable_entity, ◌then_with◌,
}

unfoldable pub handle_post_auth_info : Option String → Option ℕ → String → Handler (String × List ℕ)
unfolding answer bind_json
handle_post_auth_info req server session =
    bind_json req λ username. answer unauthorized (new_auth_info username server session)

pub record AuthReq : Type 0 where
  pub username : String
  pub client_ephemeral : Option (List ℕ)
  pub client_proof : Option (List ℕ)
  pub srp_session : String

-- `verify` is `VerifyProofs` of the SRP server with the ephemeral and the proof of the client.
unfoldable pub handle_post_auth :
    (List ℕ → List ℕ → ℕ → Option (List ℕ))
    → ℕ
    → Option AuthReq
    → String
    → String
    → String
    → Handler Login
unfolding answer bind_json
handle_post_auth verify now req uid access refresh = bind_json req λ r. elim r.client_ephemeral [
  | none ↦ abort bad_request
  | some ephemeral ↦ elim r.client_proof [
    | none ↦ abort bad_request
    | some proof ↦
        answer unauthorized
          (new_auth (verify ephemeral proof) now r.username r.srp_session uid access refresh)
  ]
]

-- The request has the id of the login and the refresh token.
unfoldable pub handle_post_auth_refresh :
    ℕ → Option (String × String) → String → String → Handler Login
unfolding answer bind_json
handle_post_auth_refresh now req access refresh =
    bind_json req λ r. answer unprocessable_entity (new_auth_ref now r.0 r.1 access refresh)

unfoldable pub handle_delete_auth : String → String → Handler Unit
unfolding answer
handle_delete_auth user_id auth_uid = answer unauthorized (delete_session user_id auth_uid)

unfoldable pub handle_get_auth_sessions : String → Handler (List (String × ℕ))
unfolding answer
handle_get_auth_sessions user_id = answer internal_server_error (get_sessions user_id)

-- The loop over the sessions: all but the caller's are deleted.
unfoldable pub delete_others : String → String → List (String × ℕ) → Handler Unit
unfolding ◌>>=◌ answer
delete_others user_id auth_uid [] = pure (ok tt)
delete_others user_id auth_uid (session ∷ sessions) =
    let rest = delete_others user_id auth_uid sessions in
    if session.0 == auth_uid
    then rest
    else answer internal_server_error (delete_session user_id session.0) then_with λ _. rest

unfoldable pub handle_delete_auth_sessions : String → String → Handler Unit
unfolding ◌>>=◌ answer delete_others
handle_delete_auth_sessions user_id auth_uid =
    answer internal_server_error (get_sessions user_id) then_with delete_others user_id auth_uid

unfoldable pub handle_delete_auth_session : String → String → Handler Unit
unfolding answer
handle_delete_auth_session user_id auth_uid =
    answer internal_server_error (delete_session user_id auth_uid)

-- The header Authorization, as it splits at spaces: missing, of one word, or with a second word.
pub data Authorization : Type 0 where
  no_header : Authorization
  one_word : Authorization
  bearer : String → Authorization

-- `requireAuth`, with the handler of the route that it guards; the handler gets what it sets.
unfoldable pub require_auth :
    {A : Type 0} → ℕ → String → Authorization → (String → String → Handler A) → Handler A
unfolding ◌>>=◌ answer
require_auth now auth_uid auth handler = if auth_uid == "" then abort unauthorized else elim auth [
  | no_header ↦ abort unauthorized
  | one_word ↦ panic
  | bearer token ↦ answer unauthorized (verify_auth now auth_uid token) then_with λ user_id.
      handler user_id auth_uid
]
