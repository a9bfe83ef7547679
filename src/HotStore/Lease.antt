-- ===== src/HotStore/Lease.antt =====
-- valkey_idempotency_store.py: a live lease shuts the other owners out, and a completed result is
-- replayed.
use andruha_identity_service.Prelude.{
  ℕ, ◌<◌, String, ◌≡◌, refl, sym, ap, ◌∙◌, subst, ◌≢◌, ◌⊎◌, inl, inr, Bool, false, not, Option,
  none, some, List, [], ◌∷◌, arith, eq_iff, leb, ◌==◌, if_ind, if_cases, All,
}
use andruha_identity_service.Errors.{Result, ok, raise}
use andruha_identity_service.Clock.{Bytes}
use andruha_identity_service.Idempotency.Record.{CompletedIdempotencyResult}
use andruha_identity_service.HotStore.Script.{
  processing, Entry, Reply, judge, begin_script, renew_script, complete_script, abandon_script,
  lapse, owned_by,
}
use andruha_identity_service.HotStore.Adapter.{
  BeginResult, acquired, Json, Link, answered, refused, lost, Server, Keys, put, eval,
  encode_completed, read_reply, uncorrupted, read_begin, begin, renew, complete, abandon,
}

-- One call of the store, without its owner.
pub data Call : Type 0 where
  begins : Bytes → (lease : ℕ) → Call
  renews : (lease : ℕ) → Call
  completes : (ttl : ℕ) → CompletedIdempotencyResult → Call
  abandons : Call

module _ (j : Json) (s : Server) (key : String) where
  -- The keys after a call.
  unfoldable pub after_call : ℕ → Call → Keys → Keys
  unfolding begin renew complete abandon
  after_call owner (begins h lease) keys = (begin j s key h owner lease keys).1
  after_call owner (renews lease) keys = (renew j s key owner lease keys).1
  after_call owner (completes ttl c) keys = (complete j s key ttl owner c keys).1
  after_call owner abandons keys = (abandon j s key owner keys).1

  unfoldable pub after_calls : List (ℕ × Call) → Keys → Keys
  unfolding after_call
  after_calls [] keys = keys
  after_calls ((owner, c) ∷ cs) keys = after_calls cs (after_call owner c keys)

-- The entry of a running request: a lease of the owner.
pub record IsLease (owner : ℕ) (e : Entry) : Type 0 where
  pub version : e.format_version ≡ some 1
  pub state : e.state ≡ some processing
  pub hash : (h : Bytes) × (e.request_hash ≡ some h)
  pub held : e.owner_token ≡ some owner
  pub result : e.result ≡ none

abbrev NotMine : ℕ → ℕ × Call → Type 0
NotMine owner (other, c) = other ≢ owner

Link-cases : (l : Link) → (l ≡ answered) ⊎ ((l ≡ refused) ⊎ (l ≡ lost))
Link-cases answered = inl refl
Link-cases refused = inr (inl refl)
Link-cases lost = inr (inr refl)

pub put_self :
    (key : String) (e : Option Entry) (entry : String → Option Entry) → put key e entry key ≡ e
put_self key e entry = ground (arith, eq_iff key key)

pub lapse-live : (now : ℕ) (e : Entry) → now < e.expires_at → lapse now (some e) ≡ some e
lapse-live now e h = ground arith

-- The key of a command: as the script leaves it, or untouched.
eval-entry :
    {A : Type 0} (s : Server) (key : String) (script : ℕ → Option Entry → A × Option Entry)
    (keys : Keys)
    → let n = keys.calls in
      let before = s.others n keys.entry key in
      ((eval s key script keys).1.entry key ≡ (script (s.now n) (lapse (s.now n) before)).1)
      ⊎ ((eval s key script keys).1.entry key ≡ before)
unfolding eval
eval-entry s key script keys =
    let n = keys.calls in
    let before = s.others n keys.entry in
    let e = (script (s.now n) (lapse (s.now n) (before key))).1 in
    elim (Link-cases (s.link n)) [
      | inl h ↦ inl (rw h (put_self key e before))
      | inr (inl h) ↦ inr (rw h)
      | inr (inr h) ↦ inl (rw h (put_self key e before))
    ]

eval-same :
    {A : Type 0} (s : Server) (key : String) (script : ℕ → Option Entry → A × Option Entry)
    (keys : Keys) (e : Entry)
    → s.others keys.calls keys.entry key ≡ some e
    → s.now keys.calls < e.expires_at
    → (script (s.now keys.calls) (some e)).1 ≡ some e
    → (eval s key script keys).1.entry key ≡ some e
eval-same s key script keys e there live same =
    let now = s.now keys.calls in
    elim (eval-entry s key script keys) [
      | inr h ↦ h ∙ there
      | inl h ↦
          h
          ∙ ap (λ x. (script now (lapse now x)).1) there
          ∙ ap (λ x. (script now x).1) (lapse-live now e live)
          ∙ same
    ]

foreign : (owner other : ℕ) (e : Entry) → IsLease owner e → other ≢ owner → owned_by other e ≡ false
foreign owner other e l n = ground (arith, l.held, l.version, l.state)

-- A call of another owner leaves the lease alone, also if its reply is lost.
module _ (j : Json) (s : Server) (key : String) (owner : ℕ) (e : Entry) (l : IsLease owner e) where
  abbrev Kept : Keys → Type 0
  Kept keys = keys.entry key ≡ some e

  read_begin-keys : (h : Bytes) (x : Result Reply × Keys) → (read_begin j s key h x).1 ≡ x.1
  unfolding read_begin
  read_begin-keys h (ok reply, keys) = refl
  read_begin-keys h (raise f, keys) = refl

  call-same :
      (other : ℕ) (c : Call) (keys : Keys)
      → other ≢ owner
      → s.others keys.calls keys.entry key ≡ some e
      → s.now keys.calls < e.expires_at
      → Kept keys
      → Kept (after_call j s key other c keys)
  unfolding after_call begin_script renew_script complete_script abandon_script
  call-same other (begins h lease) keys n there live now =
      let x = eval s key (begin_script h other lease) keys in
      if_ind (λ (r : Result BeginResult × Keys). Kept r.1) (not (h.size == 32)) (λ _. now)
        (λ _.
          if_ind (λ (r : Result BeginResult × Keys). Kept r.1) (leb lease 0) (λ _. now)
            (λ _.
              subst Kept (sym (read_begin-keys h x))
                (eval-same s key (begin_script h other lease) keys e there live refl)))
  call-same other (renews lease) keys n there live now =
      if_ind (λ (r : Result Bool × Keys). Kept r.1) (leb lease 0) (λ _. now)
        (λ _.
          eval-same s key (renew_script other lease) keys e there live
            (ground (arith, foreign owner other e l n)))
  call-same other (completes ttl c) keys n there live now =
      eval-same s key (complete_script other (encode_completed j c) ttl c.request_hash) keys e there
        live (ground (arith, foreign owner other e l n))
  call-same other abandons keys n there live now =
      eval-same s key (abandon_script other) keys e there live
        (ground (arith, foreign owner other e l n))

  not_acquired : (h : Bytes) → judge h e ≢ Reply.acquired
  unfolding judge
  not_acquired h p = ground (arith, l.version, l.state, l.held, l.result, l.hash.1)

  reply-acquired :
      (h : Bytes) (reply : Reply) (b : BeginResult)
      → uncorrupted j (read_reply j h reply) ≡ ok b
      → b.action ≡ acquired
      → reply ≡ Reply.acquired
  unfolding uncorrupted read_reply
  reply-acquired h Reply.acquired b r a = refl
  reply-acquired h Reply.conflict b r a = absurd (ground arith)
  reply-acquired h Reply.in_progress b r a = absurd (ground arith)
  reply-acquired h Reply.malformed b r a = absurd (ground arith)
  reply-acquired h (Reply.replay text) b r a = absurd (ground arith)

  eval-judge :
      (h : Bytes) (other lease : ℕ) (keys : Keys) (reply : Reply)
      → s.others keys.calls keys.entry key ≡ some e
      → s.now keys.calls < e.expires_at
      → (eval s key (begin_script h other lease) keys).0 ≡ ok reply
      → reply ≡ judge h e
  unfolding eval begin_script
  eval-judge h other lease keys reply there live r = elim (Link-cases (s.link keys.calls)) [
    | inl a ↦ ground (arith, a, there, live, r)
    | inr (inl a) ↦ ground (arith, a, r)
    | inr (inr a) ↦ ground (arith, a, r)
  ]

  read-acquired :
      (h : Bytes) (x : Result Reply × Keys) (b : BeginResult)
      → (read_begin j s key h x).0 ≡ ok b
      → b.action ≡ acquired
      → x.0 ≡ ok Reply.acquired
  unfolding read_begin
  read-acquired h (ok reply, keys) b r a = ap ok (reply-acquired h reply b r a)
  read-acquired h (raise f, keys) b r a = absurd (ground arith)

  begin-not_acquired :
      (h : Bytes) (other lease : ℕ) (keys : Keys) (b : BeginResult)
      → s.others keys.calls keys.entry key ≡ some e
      → s.now keys.calls < e.expires_at
      → (begin j s key h other lease keys).0 ≡ ok b
      → b.action ≢ acquired
  unfolding begin
  begin-not_acquired h other lease keys b there live r a =
      let x = eval s key (begin_script h other lease) keys in
      let P = λ (y : Result BeginResult × Keys). y.0 ≡ ok b in
      elim (if_cases P (not (h.size == 32)) r) [
        | inl (_, k) ↦ cc
        | inr (_, k) ↦ elim (if_cases P (leb lease 0) k) [
          | inl (_, m) ↦ cc
          | inr (_, m) ↦ not_acquired h (
              sym
                (eval-judge h other lease keys Reply.acquired there live (read-acquired h x b m a)))
        ]
      ]

  calls-Kept :
      (cs : List (ℕ × Call)) (keys : Keys)
      → All (NotMine owner) cs
      → ((n : ℕ) (f : String → Option Entry) → s.others n f key ≡ f key)
      → ((n : ℕ) → s.now n < e.expires_at)
      → Kept keys
      → Kept (after_calls j s key cs keys)
  unfolding after_calls
  calls-Kept [] keys foreigners alone live now = now
  calls-Kept ((other, c) ∷ cs) keys foreigners alone live now =
      let there = alone keys.calls keys.entry ∙ now in
      calls-Kept cs (after_call j s key other c keys) foreigners.1 alone live
        (call-same other c keys foreigners.0 there (live keys.calls) now)

  -- While a lease is live, and nothing but the store writes its key, no sequence of calls by other
  -- owners changes its entry, whether their replies arrive or are lost, and no `begin` acquires it.
  pub lease_excludes :
      (cs : List (ℕ × Call)) (keys : Keys)
      → All (NotMine owner) cs
      → ((n : ℕ) (f : String → Option Entry) → s.others n f key ≡ f key)
      → ((n : ℕ) → s.now n < e.expires_at)
      → keys.entry key ≡ some e
      → ((after_calls j s key cs keys).entry key ≡ some e)
        × ((h : Bytes) (other lease : ℕ) (b : BeginResult)
            → (begin j s key h other lease (after_calls j s key cs keys)).0 ≡ ok b
            → b.action ≢ acquired)
  lease_excludes cs keys foreigners alone live now =
      let kept = calls-Kept cs keys foreigners alone live now in
      let last = after_calls j s key cs keys in
      (
        kept,
        λ h other lease b.
            begin-not_acquired h other lease last b (alone last.calls last.entry ∙ kept)
              (live last.calls),
      )
