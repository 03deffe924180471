-- ===== src/Bouncer.antt =====
-- The webhook bouncer, which authenticates users of a cluster with Keystone and keeps what it
-- learned in a cache: bouncer/pkg/authn/authn.go, cache/expirecache.go and policy/mapping.go.
-- Keystone, bcrypt and the LRU cache below the expiring one are parameters.
pub mod Vouched
pub mod Admission
use nodelet.Shared.{
  ℕ, suc, ◌+◌, String, Bool, true, false, List, [], ◌∷◌, ◌++◌, Option, none, some, ◌==◌, ltb,
  if◌then◌else◌, map, lookup, insert,
}

-- `TokenReviewStatusUser` and `TokenReviewStatus`.
pub record User : Type 0 where
  pub username : String
  pub uid : String
  pub groups : List String

pub record Status : Type 0 where
  pub authenticated : Bool
  pub user : Option User

-- A token of Keystone, by what the webhook reads of it.
pub record Token : Type 0 where
  pub user_name : String
  pub user_id : String
  pub roles : List String

-- What a call of Keystone returns: a token, an error with status 401, or another error.
pub data Answer : Type 0 where
  token : Token → Answer
  unauthorized failure : Answer

-- The two types of value in the cache.
pub data CacheValue : Type 0 where
  of_credentials : String → Status → CacheValue
  of_token : Status → CacheValue

-- `entry`: the value, and the time in nanoseconds when it expires.
pub record Entry : Type 0 where
  pub value : CacheValue
  pub expire_time : ℕ

abbrev pub Cache : Type 0
Cache = List (String × Entry)

-- What the webhook uses, each answer by the number of the call.
pub record Services : Type 0 where
  pub now : ℕ → ℕ
  pub from_credentials : ℕ → String → String → Answer
  pub from_token_id : ℕ → String → Answer
  -- `GroupsFromProjectToken`
  pub groups_of : ℕ → Token → Option (List String)
  -- bcrypt's `GenerateFromPassword` and `CompareHashAndPassword`
  pub hash : ℕ → String → Option String
  pub matches : String → String → Bool
  -- what the LRU cache keeps when an entry is added to it
  pub evict : ℕ → Cache → Cache
  pub mapping : List (String × String)
  pub auth_ttl : ℕ
  pub unauth_ttl : ℕ

-- The cache, and the number of calls so far.
pub record Webhook : Type 0 where
  pub cache : Cache
  pub calls : ℕ

-- `Remove` of a key.
unfoldable pub remove_key : String → Cache → Cache
remove_key key [] = []
remove_key key (e ∷ cache) =
    let rest = remove_key key cache in if e.0 == key then rest else e ∷ rest

-- `GetGroupsFromTokenRole`: a role without a mapping gives the empty group.
unfoldable pub get_groups_from_token_role : List (String × String) → Token → List String
get_groups_from_token_role mapping t =
    map (λ role. elim (lookup role mapping) [ none ↦ "" | some group ↦ group ]) t.roles

module _ (sv : Services) where
  abbrev call : Webhook → Webhook
  call a = record a { calls = suc a.calls }

  -- `Get` of the expiring cache, after the lookup.
  unfoldable pub get_entry : String → Option Entry → Webhook → Option CacheValue × Webhook
  get_entry key none a = (none, a)
  get_entry key (some e) a =
      if ltb e.expire_time (sv.now a.calls)
      then (none, record { cache = remove_key key a.cache; calls = suc a.calls })
      else (some e.value, call a)

  unfoldable pub get : String → Webhook → Option CacheValue × Webhook
  get key a = get_entry key (lookup key a.cache) a

  -- `Add`; the timer that it starts is the step `expire`.
  unfoldable pub add : String → CacheValue → ℕ → Webhook → Webhook
  add key value ttl a = record {
    cache =
        sv.evict a.calls
          (insert key (record { value = value; expire_time = sv.now a.calls + ttl }) a.cache);
    calls = suc a.calls;
  }

  -- The timer of `Add`, which fires at any time between the requests.
  unfoldable pub expire : String → Webhook → Webhook
  expire key a = record a { cache = remove_key key a.cache }

  -- The status of an authenticated user, with `fillMappedGroups`.
  unfoldable pub status_of : ℕ → Token → Status
  status_of n t =
      let mapped = get_groups_from_token_role sv.mapping t in
      record {
        authenticated = true;
        user = some (record {
          username = t.user_name;
          uid = t.user_id;
          groups = mapped ++ elim (sv.groups_of n t) [ none ↦ [] | some groups ↦ groups ];
        });
      }

  abbrev pub refused : Status
  refused = record { authenticated = false; user = none }

  -- The caching at the end of `handleCredentials`.
  unfoldable pub keep : String → String → Status → ℕ → Webhook → Status × Webhook
  keep username password status ttl a =
      let b = call a in
      elim (sv.hash a.calls password) [
        | none ↦ (status, b)
        | some h ↦ (status, add username (of_credentials h status) ttl b)
      ]

  -- `handleCredentials`, when the cache does not decide.
  unfoldable pub ask_credentials : String → String → Answer → Webhook → Status × Webhook
  ask_credentials username password (token t) a =
      keep username password (status_of a.calls t) sv.auth_ttl (call a)
  ask_credentials username password unauthorized a = keep username password refused sv.unauth_ttl a
  ask_credentials username password failure a = (refused, a)

  unfoldable pub credentials_with : String → String → Option CacheValue → Webhook → Status × Webhook
  credentials_with username password (some (of_credentials h status)) a =
      let asked =
        ask_credentials username password (sv.from_credentials a.calls username password)
          (call a) in
      if sv.matches h password then (status, a) else asked
  credentials_with username password (some (of_token status)) a =
      ask_credentials username password (sv.from_credentials a.calls username password) (call a)
  credentials_with username password none a =
      ask_credentials username password (sv.from_credentials a.calls username password) (call a)

  -- `handleCredentials`: the status in the response, and the webhook.
  unfoldable pub handle_credentials : String → String → Webhook → Status × Webhook
  handle_credentials username password a =
      let (found, b) = get username a in credentials_with username password found b

  -- `handleTokenID`, when the cache does not decide.
  unfoldable pub ask_token : String → Answer → Webhook → Status × Webhook
  ask_token id (token t) a =
      (status_of a.calls t, add id (of_token (status_of a.calls t)) sv.auth_ttl (call a))
  ask_token id unauthorized a = (refused, add id (of_token refused) sv.unauth_ttl a)
  ask_token id failure a = (refused, a)

  unfoldable pub token_with : String → Option CacheValue → Webhook → Status × Webhook
  token_with id (some (of_token status)) a = (status, a)
  token_with id (some (of_credentials h status)) a =
      ask_token id (sv.from_token_id a.calls id) (call a)
  token_with id none a = ask_token id (sv.from_token_id a.calls id) (call a)

  -- `handleTokenID`: the status in the response, and the webhook.
  unfoldable pub handle_token_id : String → Webhook → Status × Webhook
  handle_token_id id a = let (found, b) = get id a in token_with id found b
