-- ===== src/Client/Session.antt =====
-- client.go and manager_auth.go: how a client makes a request, and how it gets and renews its tokens.
-- What the client tells its handlers is appended to a log; the handlers are known by numbers. A request
-- is a function of its headers and of the state of the other side; the retries of resty are inside it.
pub mod Recovery
use go_proton_api.Base.{
  ℕ, String, string_eq, Bool, true, false, not, ◌&&◌, ◌||◌, Option, none, some, List, [], ◌∷◌, ◌++◌,
  ◌==◌, nat_eq, map, if◌then◌else◌,
}
use go_proton_api.Backend.Sessions.{Login}
use go_proton_api.Server.Response.{Response, ok, aborted}

pub data ClientEvent : Type 0 where
  new_auth : ℕ → Login → ClientEvent
  deauth : ℕ → ClientEvent

pub record Client : Type 0 where
  pub uid : String
  pub acc : String
  pub ref : String
  pub auth_handlers : List ℕ
  pub deauth_handlers : List ℕ
  pub deauth_done : Bool
  pub log : List ClientEvent

unfoldable pub new_client : String → String → String → Client
new_client uid acc ref = record {
  uid = uid;
  acc = acc;
  ref = ref;
  auth_handlers = [];
  deauth_handlers = [];
  deauth_done = false;
  log = [];
}

unfoldable pub add_auth_handler : ℕ → Client → Client
add_auth_handler h c = record c { auth_handlers = c.auth_handlers ++ h ∷ [] }

unfoldable pub add_deauth_handler : ℕ → Client → Client
add_deauth_handler h c = record c { deauth_handlers = c.deauth_handlers ++ h ∷ [] }

unfoldable pub close : Client → Client
close c = record c { uid = ""; acc = ""; ref = ""; auth_handlers = []; deauth_handlers = [] }

-- The result of a request: no response object, one without a raw response, one with an error of the
-- network, or an answer.
pub data Reply (A : Type 0) : Type 0 where
  unsent : Reply A
  lost : Reply A
  net_failed : Reply A
  replied : Response A → Reply A

pub data RefreshError : Type 0 where
  refused : RefreshError
  server_issues : RefreshError
  other_issue : RefreshError

pub data ClientError : Type 0 where
  net_error : ClientError
  refresh_failed : RefreshError → ClientError
  retry_failed : ClientError
  request_failed : ℕ → ℕ → ClientError
  send_failed : ClientError

pub data Result (A : Type 0) : Type 0 where
  done : A → Result A
  error : ClientError → Result A

abbrev pub is_refusal : ℕ → Bool
is_refusal status = status == 400 || status == 422

abbrev pub is_server_issue : ℕ → Bool
is_server_issue status = status == 409 || status == 429 || status == 500 || status == 503

-- `deauthOnce`: the handlers are called the first time only.
unfoldable pub call_deauth : Client → Client
call_deauth c =
    if c.deauth_done
    then c
    else record c { deauth_done = true; log = c.log ++ map deauth c.deauth_handlers }

unfoldable pub take_auth : Login → Client → Client
take_auth auth c = record c {
  acc = auth.access;
  ref = auth.refresh;
  log = c.log ++ map (λ h. new_auth h auth) c.auth_handlers;
}

-- A request with the headers x-pm-uid and Authorization; an empty text is a header that is not set.
abbrev pub Request : Type 0 → Type 0 → Type 0
Request S A = String → String → S → Reply A × S

-- `authRefresh` of the manager: a request with the id, the refresh token and the access token.
abbrev pub Refresh : Type 0 → Type 0
Refresh S = String → String → String → S → Reply Login × S

unfoldable pub exec : {S A : Type 0} → Request S A → Client → S → Reply A × S
exec request c s = request c.uid c.acc s

-- The end of `authRefresh`, by the reply.
unfoldable pub refreshed : Reply Login → Client → Option RefreshError × Client
unfolding call_deauth take_auth
refreshed unsent c = (some other_issue, c)
refreshed lost c = (some other_issue, c)
refreshed net_failed c = (some other_issue, c)
refreshed (replied (ok auth)) c = (none, take_auth auth c)
refreshed (replied (aborted status code)) c =
    if is_refusal status
    then (some refused, call_deauth c)
    else if is_server_issue status
    then (some server_issues, c)
    else (some other_issue, c)

unfoldable pub auth_refresh :
    {S : Type 0} → Refresh S → Client → S → Option RefreshError × Client × S
unfolding refreshed
auth_refresh refresh c s =
    let (reply, s') = refresh c.uid c.ref c.acc s in
    let (failure, c') = refreshed reply c in (failure, c', s')

-- The result of the request that is made again.
unfoldable pub retried : {A : Type 0} → Reply A → Result A
retried (replied (ok a)) = done a
retried reply = error retry_failed

unfoldable pub retry :
    {S A : Type 0} → Request S A → Option RefreshError → Client → S → Result A × Client × S
unfolding exec retried
retry request (some e) c s = (error (refresh_failed e), c, s)
retry request none c s = let (reply, s') = exec request c s in (retried reply, c, s')

-- `doRes`, by the reply to the first request.
unfoldable pub conclude :
    {S A : Type 0} → Request S A → Refresh S → Reply A → Client → S → Result A × Client × S
unfolding auth_refresh retry
conclude request refresh unsent c s = (error send_failed, c, s)
conclude request refresh lost c s = (error net_error, c, s)
conclude request refresh net_failed c s = (error net_error, c, s)
conclude request refresh (replied (ok a)) c s = (done a, c, s)
conclude request refresh (replied (aborted status code)) c s =
    if status == 401
    then (let (failure, c', s') = auth_refresh refresh c s in retry request failure c' s')
    else (error (request_failed status code), c, s)

unfoldable pub do_res :
    {S A : Type 0} → Request S A → Refresh S → Client → S → Result A × Client × S
unfolding exec conclude
do_res request refresh c s =
    let (reply, s') = exec request c s in conclude request refresh reply c s'
