-- ===== src/Tests/Users.antt =====
-- The webhook of bouncer/pkg/authn at concrete inputs.
use nodelet.Shared.{
  lookup, insert, ◌≡◌, refl, ◌∙◌, sym, true, [], ◌∷◌, none, some, ◌==◌, ◌&&◌, if◌then◌else◌, eq_iff,
}
use mathlib.Core.Option.{some-injective}
use nodelet.Bouncer.{
  credentials_with, get, get_entry, expire, remove_key, ask_credentials, keep, add, status_of,
  token_with, ask_token, Services, token, unauthorized, Webhook, handle_credentials,
  handle_token_id,
}
use nodelet.Bouncer.Vouched.{
  log_in, log_in_by_token, timer, act_all, IsSound, Accepted, AcceptedToken,
}
use nodelet.Bouncer.Admission.{handle_credentials-Accepted, handle_token_id-AcceptedToken}

-- Keystone knows one user, with one password and one token; the hash of a password is itself.
abbrev services : Services
services = record {
  now = λ n. n;
  from_credentials = λ _ u p.
      if u == "ann" && p == "pw"
      then token (record { user_name = "ann"; user_id = "1"; roles = "admin" ∷ [] })
      else unauthorized;
  from_token_id = λ _ id.
      if id == "t0"
      then token (record { user_name = "ann"; user_id = "1"; roles = [] })
      else unauthorized;
  groups_of = λ _ _. none;
  hash = λ _ p. some p;
  matches = λ h p. h == p;
  evict = λ _ c. c;
  mapping = ("admin", "system:masters") ∷ [];
  auth_ttl = 100;
  unauth_ttl = 10;
}

services-IsSound : IsSound services
services-IsSound = record {
  evicts = λ n cache key e found. found;
  tells_apart = λ n password other h hashed same.
      sym (some-injective password h hashed ∙ (eq_iff h other).0 same);
}

abbrev start : Webhook
start = record { cache = []; calls = 0 }

-- The second request of the user is answered from the cache.
let_in :
    (handle_credentials services "ann" "pw"
      (act_all services (log_in "ann" "pw" ∷ timer "bob" ∷ []) start)).0.authenticated
    ≡ true
unfolding handle_credentials credentials_with get get_entry lookup expire remove_key ask_credentials
    keep add insert status_of
let_in = refl

handle_credentials-Accepted_example :
    Accepted services "ann" "pw"
      (handle_credentials services "ann" "pw"
        (act_all services (log_in "ann" "pw" ∷ timer "bob" ∷ []) start)).0
handle_credentials-Accepted_example =
    handle_credentials-Accepted services services-IsSound (log_in "ann" "pw" ∷ timer "bob" ∷ [])
      "ann" "pw" let_in

let_in_by_token :
    (handle_token_id services "t0"
      (act_all services (log_in_by_token "t0" ∷ []) start)).0.authenticated
    ≡ true
unfolding handle_token_id token_with get get_entry lookup ask_token add insert status_of
let_in_by_token = refl

handle_token_id-AcceptedToken_example :
    AcceptedToken services "t0"
      (handle_token_id services "t0" (act_all services (log_in_by_token "t0" ∷ []) start)).0
handle_token_id-AcceptedToken_example =
    handle_token_id-AcceptedToken services services-IsSound (log_in_by_token "t0" ∷ []) "t0"
      let_in_by_token
