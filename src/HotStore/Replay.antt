-- ===== src/HotStore/Replay.antt =====
-- valkey_idempotency_store.py: what `complete` stores, `begin` gives back.
use andruha_identity_service.Prelude.{
  ℕ, ◌+◌, ◌<◌, String, ◌≡◌, refl, sym, ap, ◌∙◌, subst, true, Option, none, some, ◌∷◌, arith,
}
use andruha_identity_service.Errors.{Result, ok, raise}
use andruha_identity_service.Clock.{Bytes}
use andruha_identity_service.Idempotency.Record.{CompletedIdempotencyResult, validate_completed}
use andruha_identity_service.HotStore.Script.{
  processing, completed, Entry, Reply, judge, begin_script, complete_script, lapse,
}
use andruha_identity_service.HotStore.Adapter.{
  acquired, replay, str_value, int_value, bytes_value, object_value, optional, Dict, get_item, Json,
  payload_of, model_validate, decode_payload, read_optional_str, read_optional_int,
  read_optional_object, answered, Server, Keys, eval, encode_completed, decode_completed,
  read_reply, read_begin, uncorrupted, begin, complete,
}
use andruha_identity_service.HotStore.Lease.{put_self, lapse-live}

-- The entry after `begin` has acquired a lease, and after `complete`.
abbrev leased : Bytes → (owner until : ℕ) → Entry
leased h owner until = record {
  format_version = some 1;
  state = some processing;
  request_hash = some h;
  owner_token = some owner;
  result = none;
  expires_at = until;
}

abbrev finished : Bytes → String → (until : ℕ) → Entry
finished h text until = record {
  format_version = some 1;
  state = some completed;
  request_hash = some h;
  owner_token = none;
  result = some text;
  expires_at = until;
}

eval-answered :
    {A : Type 0} (s : Server) (key : String) (script : ℕ → Option Entry → A × Option Entry)
    (keys : Keys) (e : Option Entry) (a : A) (e' : Option Entry)
    → s.link keys.calls ≡ answered
    → lapse (s.now keys.calls) (s.others keys.calls keys.entry key) ≡ e
    → script (s.now keys.calls) e ≡ (a, e')
    → ((eval s key script keys).0 ≡ ok a)
      × ((eval s key script keys).1.entry key ≡ e')
      × ((eval s key script keys).1.calls ≡ keys.calls + 1)
unfolding eval
eval-answered s key script keys e a e' up there run =
    let n = keys.calls in
    let before = s.others n keys.entry in
    let ran : script (s.now n) (lapse (s.now n) (before key)) ≡ (a, e') =
      ap (script (s.now n)) there ∙ run in
    rw (up, ran) (refl, put_self key e' before, refl)

module _ (j : Json) (s : Server) (key : String) (up : (n : ℕ) → s.link n ≡ answered)
    (alone : (n : ℕ) (f : String → Option Entry) → s.others n f key ≡ f key) where
  begin-eval :
      (h : Bytes) (owner lease : ℕ) (keys : Keys)
      → h.size ≡ 32
      → 0 < lease
      → begin j s key h owner lease keys
        ≡ read_begin j s key h (eval s key (begin_script h owner lease) keys)
  unfolding begin
  begin-eval h owner lease keys size pos = ground arith

  read_begin-eq :
      (h : Bytes) (x : Result Reply × Keys) (reply : Reply)
      → x.0 ≡ ok reply
      → read_begin j s key h x ≡ (uncorrupted j (read_reply j h reply), x.1)
  unfolding read_begin
  read_begin-eq h (ok r, keys) reply e = ground arith
  read_begin-eq h (raise f, keys) reply e = absurd (ground arith)

  begin-replies :
      (h : Bytes) (owner lease : ℕ) (keys : Keys) (e : Option Entry) (reply : Reply)
      (e' : Option Entry)
      → h.size ≡ 32
      → 0 < lease
      → lapse (s.now keys.calls) (keys.entry key) ≡ e
      → begin_script h owner lease (s.now keys.calls) e ≡ (reply, e')
      → ((begin j s key h owner lease keys).0 ≡ uncorrupted j (read_reply j h reply))
        × ((begin j s key h owner lease keys).1.entry key ≡ e')
        × ((begin j s key h owner lease keys).1.calls ≡ keys.calls + 1)
  begin-replies h owner lease keys e reply e' size pos there run =
      let x = eval s key (begin_script h owner lease) keys in
      let (r, k, n) =
        eval-answered s key (begin_script h owner lease) keys e reply e' (up keys.calls)
          (ap (lapse (s.now keys.calls)) (alone keys.calls keys.entry) ∙ there) run in
      let eq = begin-eval h owner lease keys size pos ∙ read_begin-eq h x reply r in
      (ap (λ y. y.0) eq, ap (λ y. y.1.entry key) eq ∙ k, ap (λ y. y.1.calls) eq ∙ n)

  acquires-eq :
      (h : Bytes)
      → uncorrupted j (read_reply j h Reply.acquired)
        ≡ ok (record { action = acquired; completed = none })
  unfolding uncorrupted read_reply
  acquires-eq h = refl

  -- The JSON library reads back a dictionary that it wrote, with the same items in some order, and
  -- `bytes.fromhex` inverts `bytes.hex`.
  pub record ReadsBack (c : CompletedIdempotencyResult) : Type 0 where
    pub unhexed : j.fromhex (j.hex c.request_hash) ≡ ok c.request_hash
    pub items : Dict
    pub loaded : j.loads (j.dumps (payload_of j c)) ≡ ok items
    pub same : (name : String) → get_item name items ≡ get_item name (payload_of j c)

  payload-items :
      (c : CompletedIdempotencyResult)
      → (get_item "request_hash" (payload_of j c) ≡ some (str_value (j.hex c.request_hash)))
        × (get_item "result_type" (payload_of j c) ≡ some (str_value c.result.result_type))
        × (get_item "result_payload" (payload_of j c)
            ≡ some (optional object_value c.result.result_payload))
        × (get_item "result_version" (payload_of j c) ≡ some (int_value c.result.result_version))
        × (get_item "resource_type" (payload_of j c)
            ≡ some (optional str_value c.result.resource_type))
        × (get_item "resource_id" (payload_of j c) ≡ some (optional str_value c.result.resource_id))
        × (get_item "resource_version" (payload_of j c)
            ≡ some (optional int_value c.result.resource_version))
  unfolding payload_of
  payload-items c = (refl, refl, refl, refl, refl, refl, refl)

  read-str : (o : Option String) → read_optional_str (some (optional str_value o)) ≡ ok o
  read-str none = refl
  read-str (some a) = refl

  read-int : (o : Option ℕ) → read_optional_int (some (optional int_value o)) ≡ ok o
  read-int none = refl
  read-int (some a) = refl

  read-object : (o : Option String) → read_optional_object (some (optional object_value o)) ≡ ok o
  read-object none = refl
  read-object (some a) = refl

  validate-dumped :
      (c : CompletedIdempotencyResult) (items : Dict)
      → ((name : String) → get_item name items ≡ get_item name (payload_of j c))
      → model_validate (("request_hash", bytes_value c.request_hash) ∷ items)
        ≡ validate_completed c.request_hash c.result
  unfolding model_validate
  validate-dumped c items same =
      let (_, kind, payload, version, of_type, of_id, of_version) = payload-items c in
      rw
        (
          same "result_type" ∙ kind,
          same "result_payload" ∙ payload,
          same "result_version" ∙ version,
          same "resource_type" ∙ of_type,
          same "resource_id" ∙ of_id,
          same "resource_version" ∙ of_version,
          read-object c.result.result_payload,
          read-str c.result.resource_type,
          read-str c.result.resource_id,
          read-int c.result.resource_version,
        )
        refl

  decode-encode :
      (c : CompletedIdempotencyResult)
      → ReadsBack c
      → validate_completed c.request_hash c.result ≡ ok c
      → decode_completed j (encode_completed j c) ≡ ok c
  unfolding decode_completed decode_payload encode_completed
  decode-encode c round valid =
      rw
        (
          decode_completed,
          decode_payload,
          round.loaded,
          round.same "request_hash" ∙ (payload-items c).0,
          round.unhexed,
          validate-dumped c round.items round.same,
          valid,
        )
        refl

  read-replay :
      (c : CompletedIdempotencyResult)
      → ReadsBack c
      → validate_completed c.request_hash c.result ≡ ok c
      → uncorrupted j (read_reply j c.request_hash (Reply.replay (encode_completed j c)))
        ≡ ok (record { action = replay; completed = some c })
  unfolding uncorrupted read_reply
  read-replay c round valid = ground (arith, decode-encode c round valid)

  completes :
      (c : CompletedIdempotencyResult) (owner until ttl now : ℕ)
      → complete_script owner
          (encode_completed j c)
          ttl
          c.request_hash
          now
          (some (leased c.request_hash owner until))
        ≡ (true, some (finished c.request_hash (encode_completed j c) (now + ttl)))
  unfolding complete_script
  completes c owner until ttl now = ground arith

  judge-finished :
      (h : Bytes) (text : String) (until : ℕ) → judge h (finished h text until) ≡ Reply.replay text
  unfolding judge
  judge-finished h text until = ground arith

  -- On a free key, with a server that answers and nothing else that writes the key: `begin`
  -- acquires a lease, `complete` by its owner before the lease ends stores the result, and until
  -- that expires every `begin` with the same body, by whichever owner, gives back that result: the
  -- hash, as hexadecimal text, and the result are decoded to what was encoded, where the JSON
  -- library reads back the items of a dictionary that it wrote and `fromhex` inverts `hex`.
  pub complete-begin :
      (c : CompletedIdempotencyResult) (owner lease ttl other lease' : ℕ) (keys : Keys)
      → validate_completed c.request_hash c.result ≡ ok c
      → c.request_hash.size ≡ 32
      → ReadsBack c
      → 0 < lease
      → 0 < lease'
      → lapse (s.now keys.calls) (keys.entry key) ≡ none
      → s.now (keys.calls + 1) < s.now keys.calls + lease
      → s.now (keys.calls + 2) < s.now (keys.calls + 1) + ttl
      → let leased_keys = (begin j s key c.request_hash owner lease keys).1 in
        let stored_keys = (complete j s key ttl owner c leased_keys).1 in
        ((begin j s key c.request_hash owner lease keys).0
          ≡ ok (record { action = acquired; completed = none }))
        × ((complete j s key ttl owner c leased_keys).0 ≡ ok true)
        × ((begin j s key c.request_hash other lease' stored_keys).0
            ≡ ok (record { action = replay; completed = some c }))
  unfolding complete begin_script
  complete-begin c owner lease ttl other lease' keys valid size round pos pos' free early kept =
      let h = c.request_hash in
      let n = keys.calls in
      let text = encode_completed j c in
      let (r1, k1, c1) =
        begin-replies h owner lease keys none Reply.acquired
          (some (leased h owner (s.now n + lease))) size pos free refl in
      let keys1 = (begin j s key h owner lease keys).1 in
      let e1 = leased h owner (s.now n + lease) in
      let live1 =
        lapse-live (s.now keys1.calls) e1 (subst (λ m. s.now m < s.now n + lease) (sym c1) early) in
      let (r2, k2, c2) =
        eval-answered s key (complete_script owner text ttl h) keys1 (some e1) true
          (some (finished h text (s.now keys1.calls + ttl))) (up keys1.calls)
          (ap (lapse (s.now keys1.calls)) (alone keys1.calls keys1.entry ∙ k1) ∙ live1)
          (completes c owner (s.now n + lease) ttl (s.now keys1.calls)) in
      let keys2 = (complete j s key ttl owner c keys1).1 in
      let e2 = finished h text (s.now keys1.calls + ttl) in
      let count : keys2.calls ≡ n + 2 = omega (arith, c1, c2) in
      let live2 = lapse-live (s.now keys2.calls) e2 (
        subst (λ m. s.now m < s.now keys1.calls + ttl) (sym count)
          (subst (λ m. s.now (n + 2) < s.now m + ttl) (sym c1) kept)) in
      let (r3, k3, c3) =
        begin-replies h other lease' keys2 (some e2) (Reply.replay text) (some e2) size pos'
          (ap (lapse (s.now keys2.calls)) k2 ∙ live2)
          (ap (λ x. (x, some e2)) (judge-finished h text (s.now keys1.calls + ttl))) in
      (r1 ∙ acquires-eq h, r2, r3 ∙ read-replay c round valid)
