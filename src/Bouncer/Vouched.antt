-- ===== src/Bouncer/Vouched.antt =====
-- What vouches for the entries of the cache in bouncer/pkg/cache/expirecache.go.
use nodelet.Shared.{
  ℕ, ◌+◌, ◌≡◌, refl, sym, ◌∙◌, String, true, none, some, List, [], ◌∷◌, ◌==◌, arith, eq_iff,
  if◌then◌else◌, lookup, insert, lookup-insert, Bool-cases, Option-cases, inl, inr, ltb,
}
use mathlib.Core.Path.{subst}
use nodelet.Bouncer.{
  Status, Token, token, CacheValue, of_credentials, of_token, Entry, Cache, Services, Webhook,
  remove_key, get, get_entry, add, expire, status_of, handle_credentials, handle_token_id,
}

pub lookup-remove_key :
    (key name : String) (cache : Cache)
    → lookup name (remove_key key cache) ≡ (if key == name then none else lookup name cache)
unfolding lookup remove_key
lookup-remove_key key name [] = ground arith
lookup-remove_key key name (e ∷ cache) =
    ground
      (arith, eq_iff key name, eq_iff e.0 key, eq_iff e.0 name, lookup-remove_key key name cache)

-- A request or a timer.
pub data Action : Type 0 where
  log_in : String → String → Action
  log_in_by_token : String → Action
  timer : String → Action

abbrev pub act : Services → Action → Webhook → Webhook
act sv (log_in username password) a = (handle_credentials sv username password a).1
act sv (log_in_by_token id) a = (handle_token_id sv id a).1
act sv (timer key) a = expire sv key a

abbrev pub act_all : Services → List Action → Webhook → Webhook
act_all sv [] a = a
act_all sv (x ∷ actions) a = act_all sv actions (act sv x a)

-- What the libraries promise: the LRU cache makes no entries up, and a password that matches the
-- hash of another is the same one.
pub record IsSound (sv : Services) : Type 0 where
  pub evicts :
      (n : ℕ) (cache : Cache) (key : String) (e : Entry)
      → lookup key (sv.evict n cache) ≡ some e
      → lookup key cache ≡ some e
  pub tells_apart :
      (n : ℕ) (password other h : String)
      → sv.hash n password ≡ some h
      → sv.matches h other ≡ true
      → other ≡ password

module _ (sv : Services) where
  -- The status is that of the user of a token.
  abbrev pub IsOf : Token → Status → Type 0
  IsOf t st =
      (groups : List String) × (st.user
        ≡ some (record { username = t.user_name; uid = t.user_id; groups = groups }))

  -- Keystone accepted these credentials, or this token ID, in some call, for this user.
  abbrev pub Accepted : String → String → Status → Type 0
  Accepted username password st =
      (n : ℕ) × (t : Token) × (sv.from_credentials n username password ≡ token t) × IsOf t st

  abbrev pub AcceptedToken : String → Status → Type 0
  AcceptedToken id st = (n : ℕ) × (t : Token) × (sv.from_token_id n id ≡ token t) × IsOf t st

  abbrev pub Vouched : String → CacheValue → Type 0
  Vouched key (of_credentials h st) =
      st.authenticated ≡ true
      → (password : String) × (n : ℕ) × (sv.hash n password ≡ some h) × Accepted key password st
  Vouched key (of_token st) = st.authenticated ≡ true → AcceptedToken key st

  abbrev pub AllVouched : Cache → Type 0
  AllVouched cache = (key : String) (e : Entry) → lookup key cache ≡ some e → Vouched key e.value

  pub remove_key-AllVouched :
      (key : String) (cache : Cache) → AllVouched cache → AllVouched (remove_key key cache)
  remove_key-AllVouched key cache all name e found =
      all name e (ground (arith, lookup-remove_key key name cache, found))

  pub status_of-IsOf : (n : ℕ) (t : Token) → IsOf t (status_of sv n t)
  unfolding status_of
  status_of-IsOf n t = (_, refl)

  pub get-AllVouched :
      (key : String) (a : Webhook) → AllVouched a.cache → AllVouched (get sv key a).1.cache
  unfolding get get_entry
  get-AllVouched key a all = elim (Option-cases (lookup key a.cache)) [
    | inl gone ↦ rw gone all
    | inr (e, found) ↦ rw found (elim (Bool-cases (ltb e.expire_time (sv.now a.calls))) [
      | inl late ↦ rw late (remove_key-AllVouched key a.cache all)
      | inr in_time ↦ rw in_time all
    ])
  ]

  pub get-Vouched :
      (key : String) (a : Webhook) (value : CacheValue)
      → AllVouched a.cache
      → (get sv key a).0 ≡ some value
      → Vouched key value
  unfolding get get_entry
  get-Vouched key a value all h = elim (Option-cases (lookup key a.cache)) [
    | inl gone ↦ absurd (ground (arith, gone, h))
    | inr (e, found) ↦
        let same : e.value ≡ value = ground (arith, found, h) in
        subst (λ (v : CacheValue). Vouched key v) same (all key e found)
  ]

  module _ (law : IsSound sv) where
    pub add-AllVouched :
        (key : String) (value : CacheValue) (ttl : ℕ) (a : Webhook)
        → AllVouched a.cache
        → Vouched key value
        → AllVouched (add sv key value ttl a).cache
    unfolding add
    add-AllVouched key value ttl a all v name e found =
        let new : Entry = record { value = value; expire_time = sv.now a.calls + ttl } in
        let inserted = law.evicts a.calls (insert key new a.cache) name e found in
        let known = sym (lookup-insert key name new a.cache) ∙ inserted in
        elim (Bool-cases (key == name)) [
          | inl same ↦
              let is_new : new ≡ e = ground (arith, known, same) in
              subst (λ (f : Entry). Vouched name f.value) is_new
                (subst (λ (k : String). Vouched k value) ((eq_iff key name).0 same) v)
          | inr other ↦ all name e (ground (arith, known, other))
        ]
