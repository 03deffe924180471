-- ===== src/Bouncer/Admission.antt =====
-- Whom the webhook of bouncer/pkg/authn/authn.go lets in.
use nodelet.Shared.{
  ℕ, suc, ◌≡◌, refl, sym, String, true, Option, none, some, List, [], ◌∷◌, arith, lookup-nil,
  Bool-cases, Option-cases, inl, inr,
}
use mathlib.Core.Path.{subst}
use nodelet.Bouncer.{
  Status, Answer, token, unauthorized, failure, CacheValue, of_credentials, of_token, Entry,
  Services, Webhook, get, expire, status_of, refused, keep, ask_credentials, credentials_with,
  handle_credentials, ask_token, token_with, handle_token_id,
}
use nodelet.Bouncer.Vouched.{
  Action, log_in, log_in_by_token, timer, act_all, IsSound, Accepted, AcceptedToken, Vouched,
  AllVouched, remove_key-AllVouched, status_of-IsOf, get-AllVouched, get-Vouched, add-AllVouched,
}

module _ (sv : Services) where
  module _ (law : IsSound sv) where
    -- The cache after a request, and what its response is worth.
    record IsFine (worth : Status → Type 0) (r : Status × Webhook) : Type 0 where
      cached : AllVouched sv r.1.cache
      response : r.0.authenticated ≡ true → worth r.0

    keep-IsFine :
        (username password : String) (st : Status) (ttl : ℕ) (a : Webhook)
        → AllVouched sv a.cache
        → (st.authenticated ≡ true → Accepted sv username password st)
        → IsFine (Accepted sv username password) (keep sv username password st ttl a)
    unfolding keep
    keep-IsFine username password st ttl a all p = elim (Option-cases (sv.hash a.calls password)) [
      | inl unhashed ↦ rw (unhashed, keep) (record { cached = all; response = p })
      | inr (h, hashed) ↦
          rw (hashed, keep)
            (record {
              cached =
                  add-AllVouched sv law username (of_credentials h st) ttl _ all
                    (λ auth. (password, a.calls, hashed, p auth));
              response = p;
            })
    ]

    ask_credentials-IsFine :
        (username password : String) (n : ℕ) (answer : Answer) (a : Webhook)
        → AllVouched sv a.cache
        → sv.from_credentials n username password ≡ answer
        → IsFine (Accepted sv username password) (ask_credentials sv username password answer a)
    unfolding ask_credentials
    ask_credentials-IsFine username password n (token t) a all e =
        keep-IsFine username password (status_of sv a.calls t) sv.auth_ttl _ all
          (λ auth. (n, t, e, status_of-IsOf sv a.calls t))
    ask_credentials-IsFine username password n unauthorized a all e =
        keep-IsFine username password (refused sv) sv.unauth_ttl a all
          (λ auth. absurd (ground arith))
    ask_credentials-IsFine username password n failure a all e = record {
      cached = all;
      response = λ auth. absurd (ground arith);
    }

    asked :
        (username password : String) (a : Webhook)
        → AllVouched sv a.cache
        → IsFine (Accepted sv username password) (
            ask_credentials sv username password
              (sv.from_credentials a.calls username password)
              (record a { calls = suc a.calls }))
    asked username password a all =
        ask_credentials-IsFine username password a.calls
          (sv.from_credentials a.calls username password) (record a { calls = suc a.calls }) all
          refl

    credentials_with-IsFine :
        (username password : String) (found : Option CacheValue) (a : Webhook)
        → AllVouched sv a.cache
        → ((value : CacheValue) → found ≡ some value → Vouched sv username value)
        → IsFine (Accepted sv username password) (credentials_with sv username password found a)
    unfolding credentials_with
    credentials_with-IsFine username password none a all v = asked username password a all
    credentials_with-IsFine username password (some (of_token st)) a all v =
        asked username password a all
    credentials_with-IsFine username password (some (of_credentials h st)) a all v =
        elim (Bool-cases (sv.matches h password)) [
          | inl good ↦ rw good (record {
            cached = all;
            response = λ auth.
                let (other, n, hashed, accepted) = v (of_credentials h st) refl auth in
                subst (λ (w : String). Accepted sv username w st)
                  (sym (law.tells_apart n other password h hashed good)) accepted;
          })
          | inr bad ↦ rw bad (asked username password a all)
        ]

    handle_credentials-IsFine :
        (username password : String) (a : Webhook)
        → AllVouched sv a.cache
        → IsFine (Accepted sv username password) (handle_credentials sv username password a)
    unfolding handle_credentials
    handle_credentials-IsFine username password a all =
        credentials_with-IsFine username password (get sv username a).0 (get sv username a).1
          (get-AllVouched sv username a all)
          (λ value found. get-Vouched sv username a value all found)

    ask_token-IsFine :
        (id : String) (n : ℕ) (answer : Answer) (a : Webhook)
        → AllVouched sv a.cache
        → sv.from_token_id n id ≡ answer
        → IsFine (AcceptedToken sv id) (ask_token sv id answer a)
    unfolding ask_token
    ask_token-IsFine id n (token t) a all e =
        let p : AcceptedToken sv id (status_of sv a.calls t) =
          (n, t, e, status_of-IsOf sv a.calls t) in
        record {
          cached =
              add-AllVouched sv law id (of_token (status_of sv a.calls t)) sv.auth_ttl _ all
                (λ auth. p);
          response = λ auth. p;
        }
    ask_token-IsFine id n unauthorized a all e = record {
      cached =
          add-AllVouched sv law id (of_token (refused sv)) sv.unauth_ttl a all
            (λ auth. absurd (ground arith));
      response = λ auth. absurd (ground arith);
    }
    ask_token-IsFine id n failure a all e = record {
      cached = all;
      response = λ auth. absurd (ground arith);
    }

    token_with-IsFine :
        (id : String) (found : Option CacheValue) (a : Webhook)
        → AllVouched sv a.cache
        → ((value : CacheValue) → found ≡ some value → Vouched sv id value)
        → IsFine (AcceptedToken sv id) (token_with sv id found a)
    unfolding token_with
    token_with-IsFine id none a all v =
        ask_token-IsFine id a.calls (sv.from_token_id a.calls id) _ all refl
    token_with-IsFine id (some (of_credentials h st)) a all v =
        ask_token-IsFine id a.calls (sv.from_token_id a.calls id) _ all refl
    token_with-IsFine id (some (of_token st)) a all v = record {
      cached = all;
      response = v (of_token st) refl;
    }

    handle_token_id-IsFine :
        (id : String) (a : Webhook)
        → AllVouched sv a.cache
        → IsFine (AcceptedToken sv id) (handle_token_id sv id a)
    unfolding handle_token_id
    handle_token_id-IsFine id a all =
        token_with-IsFine id (get sv id a).0 (get sv id a).1 (get-AllVouched sv id a all)
          (λ value found. get-Vouched sv id a value all found)

    act_all-AllVouched :
        (actions : List Action) (a : Webhook)
        → AllVouched sv a.cache
        → AllVouched sv (act_all sv actions a).cache
    act_all-AllVouched [] a all = all
    act_all-AllVouched (log_in username password ∷ actions) a all =
        act_all-AllVouched actions _ (handle_credentials-IsFine username password a all).cached
    act_all-AllVouched (log_in_by_token id ∷ actions) a all =
        act_all-AllVouched actions _ (handle_token_id-IsFine id a all).cached
    act_all-AllVouched (timer key ∷ actions) a all =
        act_all-AllVouched actions _ (unfold expire in remove_key-AllVouched sv key a.cache all)

    abbrev fresh : Webhook
    fresh = record { cache = []; calls = 0 }

    fresh-AllVouched : AllVouched sv fresh.cache
    fresh-AllVouched key e found = absurd (ground (arith, lookup-nil {A = Entry} key, found))

    -- With an LRU cache that makes no entries up and a bcrypt that tells passwords apart, after any
    -- requests and timers from an empty cache, `handleCredentials` authenticates only a user whose
    -- very username and password Keystone accepted in some call, and the status names that user.
    pub handle_credentials-Accepted :
        (actions : List Action) (username password : String)
        → let r = handle_credentials sv username password (act_all sv actions fresh) in
          r.0.authenticated ≡ true → Accepted sv username password r.0
    handle_credentials-Accepted actions username password =
        (handle_credentials-IsFine username password (act_all sv actions fresh)
          (act_all-AllVouched actions fresh fresh-AllVouched)).response

    -- With an LRU cache that makes no entries up and a bcrypt that tells passwords apart, after any
    -- requests and timers from an empty cache, `handleTokenID` authenticates only a token ID that
    -- Keystone accepted in some call, and the status names its user.
    pub handle_token_id-AcceptedToken :
        (actions : List Action) (id : String)
        → let r = handle_token_id sv id (act_all sv actions fresh) in
          r.0.authenticated ≡ true → AcceptedToken sv id r.0
    handle_token_id-AcceptedToken actions id =
        (handle_token_id-IsFine id (act_all sv actions fresh)
          (act_all-AllVouched actions fresh fresh-AllVouched)).response
