-- ===== src/Coordinator/Stores.antt =====
-- The hot stores of the service: the Valkey adapter, and the adapter behind a circuit breaker.
use andruha_identity_service.Prelude.{
  ℕ, String, ◌≡◌, refl, sym, subst, ◌⊎◌, inl, inr, true, not, Option, arith, if_ind,
}
use andruha_identity_service.Errors.{Error, Result, ok, raise, runtime_error, Result-cases}
use andruha_identity_service.Clock.{Bytes, same_bytes}
use andruha_identity_service.Breaker.{Breaker, Admission, rejected, admitted, admit, finish}
use andruha_identity_service.Idempotency.Record.{CompletedIdempotencyResult}
use andruha_identity_service.HotStore.Script.{
  Entry, Reply, begin_script, complete_script, abandon_script,
}
use andruha_identity_service.HotStore.Adapter.{
  Json, Link, answered, refused, lost, Server, Keys, after_link, eval, encode_completed,
  decode_payload, decode_completed, read_reply, read_begin, uncorrupted, begin, renew, complete,
  abandon,
}
use andruha_identity_service.HotStore.Guarded.{guarded, through}
use andruha_identity_service.Coordinator.Execute.{HotOps, is_unavailable}
use andruha_identity_service.Coordinator.Durability.{FailsCleanly}

-- `ValkeyHotIdempotencyStore`, at the key of one identity
abbrev pub valkey : Json → Server → String → (ttl : ℕ) → HotOps Keys
valkey j s key ttl = record {
  begin = begin j s key;
  renew = renew j s key;
  complete = complete j s key ttl;
  abandon = abandon j s key;
}

-- `CircuitBreakingHotStore` round a store; calls start and end at the times that `clock` gives.
abbrev pub breaking : {Inner : Type 0} (clock : Inner → ℕ) → HotOps Inner → HotOps (Breaker × Inner)
breaking clock inner = record {
  begin = λ h owner lease x. through (clock x.1) (clock x.1) (inner.begin h owner lease) x;
  renew = λ owner lease x. through (clock x.1) (clock x.1) (inner.renew owner lease) x;
  complete = λ owner c x. through (clock x.1) (clock x.1) (inner.complete owner c) x;
  abandon = λ owner x. through (clock x.1) (clock x.1) (inner.abandon owner) x;
}

-- Every error of the result is `IdempotencyStorageUnavailableError`.
abbrev IsClean : {A : Type 0} → Result A → Type 0
IsClean (ok a) = Unit
IsClean (raise e) = is_unavailable e ≡ true

clean-of :
    {A : Type 0} (r : Result A) (e : Error) → IsClean r → r ≡ raise e → is_unavailable e ≡ true
clean-of (ok a) e c p = cc
clean-of (raise f) e c p = ground arith

after_link-IsClean :
    {A : Type 0} (l : Link) (a : A) (before after : String → Option Entry) (n : ℕ)
    → IsClean (after_link l a before after n).0
after_link-IsClean answered a before after n = tt
after_link-IsClean refused a before after n = refl
after_link-IsClean lost a before after n = refl

eval-IsClean :
    {A : Type 0} (s : Server) (key : String) (script : ℕ → Option Entry → A × Option Entry)
    (keys : Keys)
    → IsClean (eval s key script keys).0
unfolding eval
eval-IsClean s key script keys = after_link-IsClean (s.link keys.calls) _ _ _ _

decode_cases :
    (j : Json) (text : String)
    → ((c : CompletedIdempotencyResult) × (decode_completed j text ≡ ok c))
      ⊎ (decode_completed j text ≡ raise runtime_error)
unfolding decode_completed
decode_cases j text = elim (Result-cases (decode_payload j text)) [
  | inr (e, bad) ↦ inr (rw (decode_completed, bad) refl)
  | inl (c, read) ↦ inl (c, rw (decode_completed, read) refl)
]

uncorrupted-IsClean :
    (j : Json) (h : Bytes) (reply : Reply) → IsClean (uncorrupted j (read_reply j h reply))
unfolding uncorrupted read_reply
uncorrupted-IsClean j h Reply.acquired = tt
uncorrupted-IsClean j h Reply.conflict = tt
uncorrupted-IsClean j h Reply.in_progress = tt
uncorrupted-IsClean j h Reply.malformed = refl
uncorrupted-IsClean j h (Reply.replay text) = elim (decode_cases j text) [
  | inr bad ↦ rw (decode_completed, bad) refl
  | inl (c, e) ↦ rw e (
      if_ind (λ r. IsClean (uncorrupted j r)) (not (same_bytes c.request_hash h)) (λ _. refl)
        (λ _. tt))
]

read_begin-IsClean :
    (j : Json) (s : Server) (key : String) (h : Bytes) (x : Result Reply × Keys)
    → IsClean x.0
    → IsClean (read_begin j s key h x).0
unfolding read_begin
read_begin-IsClean j s key h (ok reply, keys) c = uncorrupted-IsClean j h reply
read_begin-IsClean j s key h (raise e, keys) c = c

-- The Valkey adapter fails only by being unavailable.
pub valkey-FailsCleanly :
    (j : Json) (s : Server) (key : String) (ttl : ℕ) → FailsCleanly (valkey j s key ttl)
unfolding begin complete abandon
valkey-FailsCleanly j s key ttl = record {
  begin = λ h owner lease keys e size pos.
      let x = eval s key (begin_script h owner lease) keys in
      let eq : begin j s key h owner lease keys ≡ read_begin j s key h x =
        ground (arith, size, pos) in
      clean-of (begin j s key h owner lease keys).0 e (
        subst (λ y. IsClean y.0) (sym eq)
          (read_begin-IsClean j s key h x (eval-IsClean s key (begin_script h owner lease) keys)));
  complete = λ owner c keys e.
      let script = complete_script owner (encode_completed j c) ttl c.request_hash in
      clean-of (eval s key script keys).0 e (eval-IsClean s key script keys);
  abandon = λ owner keys e.
      clean-of (eval s key (abandon_script owner) keys).0 e
        (eval-IsClean s key (abandon_script owner) keys);
}

guarded-raises :
    {A Inner : Type 0} (later : ℕ) (call : Inner → Result A × Inner) (inner : Inner)
    (x : Admission × Breaker) (e : Error)
    → ((f : Error) → (call inner).0 ≡ raise f → is_unavailable f ≡ true)
    → (guarded later call inner x).0 ≡ raise e
    → is_unavailable e ≡ true
unfolding finish
guarded-raises later call inner (rejected, b) e clean r = ground arith
guarded-raises later call inner (admitted t, b) e clean r = clean e r

-- Behind a circuit breaker a store that fails cleanly does so still: an open circuit is an
-- unavailable store.
pub breaking-FailsCleanly :
    {Inner : Type 0} (clock : Inner → ℕ) (inner : HotOps Inner)
    → FailsCleanly inner
    → FailsCleanly (breaking clock inner)
unfolding through
breaking-FailsCleanly clock inner clean = record {
  begin = λ h owner lease x e size pos r.
      guarded-raises (clock x.1) (inner.begin h owner lease) x.1 (admit (clock x.1) x.0) e
        (λ f. clean.begin h owner lease x.1 f size pos) r;
  complete = λ owner c x e r.
      guarded-raises (clock x.1) (inner.complete owner c) x.1 (admit (clock x.1) x.0) e
        (clean.complete owner c x.1) r;
  abandon = λ owner x e r.
      guarded-raises (clock x.1) (inner.abandon owner) x.1 (admit (clock x.1) x.0) e
        (clean.abandon owner x.1) r;
}
