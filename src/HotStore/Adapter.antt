-- ===== src/HotStore/Adapter.antt =====
-- infrastructure/cache/valkey_idempotency_store.py: `ValkeyHotIdempotencyStore`. The server, its clock
-- and the connection come from a `Server`, the JSON library from a `Json`, the digest that names
-- the key of an identity is a parameter.
use andruha_identity_service.Prelude.{
  ℕ, ◌+◌, String, Bool, true, false, not, ◌&&◌, Option, none, some, List, [], ◌∷◌, str_eq, leb,
  ◌==◌, if◌then◌else◌, is_some,
}
use andruha_identity_service.Errors.{
  Error, Result, ok, raise, raise_if, ◌>>=◌, ◌>>◌, value_error, runtime_error, storage_unavailable,
}
use andruha_identity_service.Clock.{Bytes, same_bytes}
use andruha_identity_service.Table.{select}
use andruha_identity_service.Idempotency.Record.{CompletedIdempotencyResult, validate_completed}
use andruha_identity_service.HotStore.Script.{
  Entry, Reply, begin_script, renew_script, complete_script, abandon_script, lapse,
}

pub data BeginAction : Type 0 where
  acquired replay conflict in_progress : BeginAction

pub record BeginResult : Type 0 where
  pub action : BeginAction
  pub completed : Option CompletedIdempotencyResult

abbrev is_replay : BeginAction → Bool
is_replay replay = true
is_replay _ = false

-- `BeginResult(...)`: `validate_decision`
unfoldable pub begin_result : BeginAction → Option CompletedIdempotencyResult → Result BeginResult
begin_result action completed = do
  raise_if (is_replay action && not (is_some completed)) value_error
  raise_if (not (is_replay action) && is_some completed) value_error
  ok (record { action = action; completed = completed })

-- A value of a dictionary; a JSON object is its text.
pub data Value : Type 0 where
  null_value : Value
  str_value : String → Value
  int_value : ℕ → Value
  bytes_value : Bytes → Value
  object_value : String → Value

-- A dictionary, the latest assignment to a name first.
abbrev pub Dict : Type 0
Dict = List (String × Value)

abbrev pub get_item : String → Dict → Option Value
get_item name [] = none
get_item name ((n, v) ∷ items) = if str_eq n name then some v else get_item name items

abbrev exclude : String → Dict → Dict
exclude name items = select (λ (n, v). not (str_eq n name)) items

-- `json.dumps` and the adapter that reads a dictionary back, and `bytes.hex` and `bytes.fromhex`.
pub record Json : Type 0 where
  pub dumps : Dict → String
  pub loads : String → Result Dict
  pub hex : Bytes → String
  pub fromhex : String → Result Bytes

-- How a command ends: with its reply, with an error before it ran, or with its reply lost.
pub data Link : Type 0 where
  answered refused lost : Link

pub record Server : Type 0 where
  pub now : ℕ → ℕ
  pub link : ℕ → Link
  pub others : ℕ → (String → Option Entry) → String → Option Entry

-- The keys of the server, and how many commands were sent.
pub record Keys : Type 0 where
  pub entry : String → Option Entry
  pub calls : ℕ

abbrev pub put : String → Option Entry → (String → Option Entry) → String → Option Entry
put k e entry j = if str_eq j k then e else entry j

abbrev pub after_link {ℓ} :
    {A : Type ℓ} → Link → A → (before after : String → Option Entry) → ℕ → Result A × Keys
after_link answered a before after n = (ok a, record { entry = after; calls = n + 1 })
after_link refused a before after n =
    (raise storage_unavailable, record { entry = before; calls = n + 1 })
after_link lost a before after n =
    (raise storage_unavailable, record { entry = after; calls = n + 1 })

abbrev pub optional : {A : Type 0} → (A → Value) → Option A → Value
optional make none = null_value
optional make (some a) = make a

-- `model_dump` of a completed result, which is a `StoredResult` with a hash
abbrev pub model_dump : CompletedIdempotencyResult → Dict
model_dump c =
    ("result_type", str_value c.result.result_type)
    ∷ ("result_payload", optional object_value c.result.result_payload)
    ∷ ("result_version", int_value c.result.result_version)
    ∷ ("resource_type", optional str_value c.result.resource_type)
    ∷ ("resource_id", optional str_value c.result.resource_id)
    ∷ ("resource_version", optional int_value c.result.resource_version)
    ∷ ("request_hash", bytes_value c.request_hash)
    ∷ []

abbrev read_str : Option Value → Result String
read_str (some (str_value text)) = ok text
read_str _ = raise value_error

abbrev read_version : Option Value → Result ℕ
read_version none = ok 1
read_version (some (int_value n)) = ok n
read_version _ = raise value_error

abbrev pub read_optional_str : Option Value → Result (Option String)
read_optional_str none = ok none
read_optional_str (some null_value) = ok none
read_optional_str (some (str_value text)) = ok (some text)
read_optional_str _ = raise value_error

abbrev pub read_optional_int : Option Value → Result (Option ℕ)
read_optional_int none = ok none
read_optional_int (some null_value) = ok none
read_optional_int (some (int_value n)) = ok (some n)
read_optional_int _ = raise value_error

abbrev pub read_optional_object : Option Value → Result (Option String)
read_optional_object none = ok none
read_optional_object (some null_value) = ok none
read_optional_object (some (object_value text)) = ok (some text)
read_optional_object _ = raise value_error

abbrev read_bytes : Option Value → Result Bytes
read_bytes (some (bytes_value b)) = ok b
read_bytes _ = raise value_error

-- `CompletedIdempotencyResult.model_validate` of a dictionary
unfoldable pub model_validate : Dict → Result CompletedIdempotencyResult
unfolding validate_completed
model_validate d = do
  result_type ← read_str (get_item "result_type" d)
  result_payload ← read_optional_object (get_item "result_payload" d)
  result_version ← read_version (get_item "result_version" d)
  resource_type ← read_optional_str (get_item "resource_type" d)
  resource_id ← read_optional_str (get_item "resource_id" d)
  resource_version ← read_optional_int (get_item "resource_version" d)
  request_hash ← read_bytes (get_item "request_hash" d)
  validate_completed request_hash (record {
    result_type = result_type;
    result_payload = result_payload;
    result_version = result_version;
    resource_type = resource_type;
    resource_id = resource_id;
    resource_version = resource_version;
  })

module _ (s : Server) where
  -- `eval` of a script on one key; `_raise_unavailable`
  unfoldable pub eval {ℓ} :
      {A : Type ℓ} → String → (ℕ → Option Entry → A × Option Entry) → Keys → Result A × Keys
  eval key script keys =
      let n = keys.calls in
      let before = s.others n keys.entry in
      let (a, e) = script (s.now n) (lapse (s.now n) (before key)) in
      after_link (s.link n) a before (put key e before) n

module _ (j : Json) where
  -- The payload of `_encode_completed`
  unfoldable pub payload_of : CompletedIdempotencyResult → Dict
  payload_of c =
      ("request_hash", str_value (j.hex c.request_hash)) ∷ exclude "request_hash" (model_dump c)

  -- `_encode_completed`
  unfoldable pub encode_completed : CompletedIdempotencyResult → String
  encode_completed c = j.dumps (payload_of c)

  abbrev pub hash_of : Option Value → Result Bytes
  hash_of (some (str_value hexed)) = j.fromhex hexed
  hash_of _ = raise value_error

  -- The `try` block of `_decode_completed`; its errors are one here.
  unfoldable pub decode_payload : String → Result CompletedIdempotencyResult
  unfolding model_validate
  decode_payload raw = do
    payload ← j.loads raw
    request_hash ← hash_of (get_item "request_hash" payload)
    model_validate (("request_hash", bytes_value request_hash) ∷ payload)

  -- `_decode_completed`
  unfoldable pub decode_completed : String → Result CompletedIdempotencyResult
  unfolding decode_payload
  decode_completed raw = elim (decode_payload raw) [ ok c ↦ ok c | raise e ↦ raise runtime_error ]

  abbrev matched : Bytes → CompletedIdempotencyResult → Result BeginResult
  unfolding begin_result
  matched request_hash c =
      if not (same_bytes c.request_hash request_hash)
      then raise runtime_error
      else begin_result replay (some c)

  -- The reading of the reply by `begin`, before `_raise_corrupted`
  unfoldable pub read_reply : Bytes → Reply → Result BeginResult
  unfolding begin_result decode_completed matched
  read_reply request_hash Reply.acquired = begin_result acquired none
  read_reply request_hash (Reply.replay text) = do c ← decode_completed text; matched request_hash c
  read_reply request_hash Reply.conflict = begin_result conflict none
  read_reply request_hash Reply.in_progress = begin_result in_progress none
  read_reply request_hash Reply.malformed = raise runtime_error

  abbrev is_runtime : Error → Bool
  is_runtime runtime_error = true
  is_runtime _ = false

  -- `_raise_corrupted`
  unfoldable pub uncorrupted : Result BeginResult → Result BeginResult
  uncorrupted (ok b) = ok b
  uncorrupted (raise e) = if is_runtime e then raise storage_unavailable else raise e

  module _ (s : Server) (key : String) where
    unfoldable pub read_begin : Bytes → Result Reply × Keys → Result BeginResult × Keys
    unfolding read_reply uncorrupted
    read_begin request_hash (ok reply, keys) = (uncorrupted (read_reply request_hash reply), keys)
    read_begin request_hash (raise e, keys) = (raise e, keys)

    -- `begin`
    unfoldable pub begin : Bytes → (owner lease : ℕ) → Keys → Result BeginResult × Keys
    unfolding eval begin_script read_begin
    begin request_hash owner lease keys =
        if not (request_hash.size == 32)
        then (raise value_error, keys)
        else if leb lease 0
        then (raise value_error, keys)
        else read_begin request_hash (eval s key (begin_script request_hash owner lease) keys)

    -- `renew`
    unfoldable pub renew : (owner lease : ℕ) → Keys → Result Bool × Keys
    unfolding eval renew_script
    renew owner lease keys =
        if leb lease 0
        then (raise value_error, keys)
        else eval s key (renew_script owner lease) keys

    -- `complete`
    unfoldable pub complete :
        (ttl owner : ℕ) → CompletedIdempotencyResult → Keys → Result Bool × Keys
    unfolding eval complete_script encode_completed
    complete ttl owner c keys =
        eval s key (complete_script owner (encode_completed c) ttl c.request_hash) keys

    -- `abandon`
    unfoldable pub abandon : (owner : ℕ) → Keys → Result Bool × Keys
    unfolding eval abandon_script
    abandon owner keys = eval s key (abandon_script owner) keys
