-- ===== src/HotStore/Script.antt =====
-- infrastructure/cache/valkey_idempotency_store.py: the Lua scripts. Each runs atomically on one key,
-- so it is a function on the entry of the key, if there is one. A field of a hash is optional; the
-- text of a hash or an owner token stands for the value that it spells.
use andruha_identity_service.Prelude.{
  ℕ, ◌+◌, String, Bool, true, false, not, ◌&&◌, ◌||◌, Option, none, some, leb, if◌then◌else◌,
  is_some, holds,
}
use andruha_identity_service.Clock.{Bytes, same_bytes}

-- The `state` field: its two texts, or any other.
pub data EntryState : Type 0 where
  processing completed unknown : EntryState

pub record Entry : Type 0 where
  pub format_version : Option ℕ
  pub state : Option EntryState
  pub request_hash : Option Bytes
  pub owner_token : Option ℕ
  pub result : Option String
  pub expires_at : ℕ

-- What `_BEGIN_SCRIPT` returns: the codes 1 to 5.
pub data Reply : Type 0 where
  acquired conflict in_progress malformed : Reply
  replay : String → Reply

abbrev pub is_processing : Option EntryState → Bool
is_processing (some processing) = true
is_processing _ = false

abbrev pub is_completed : Option EntryState → Bool
is_completed (some completed) = true
is_completed _ = false

abbrev pub has_hash : Option Bytes → Bytes → Bool
has_hash none h = false
has_hash (some g) h = same_bytes g h

abbrev replayed : Option String → Reply
replayed none = malformed
replayed (some text) = replay text

-- `_BEGIN_SCRIPT` on a key that exists; it changes nothing.
unfoldable pub judge : Bytes → Entry → Reply
judge request_hash e =
    if not (is_some e.state)
    then malformed
    else if not (holds e.format_version 1) || not (is_some e.request_hash)
    then malformed
    else if is_processing e.state && (not (is_some e.owner_token) || is_some e.result)
    then malformed
    else if is_completed e.state && (not (is_some e.result) || is_some e.owner_token)
    then malformed
    else if not (has_hash e.request_hash request_hash)
    then conflict
    else if is_completed e.state
    then replayed e.result
    else if is_processing e.state
    then in_progress
    else malformed

-- `_BEGIN_SCRIPT`
unfoldable pub begin_script :
    (request_hash : Bytes) (owner lease now : ℕ) → Option Entry → Reply × Option Entry
unfolding judge
begin_script request_hash owner lease now none = (
  acquired,
  some (record {
    format_version = some 1;
    state = some processing;
    request_hash = some request_hash;
    owner_token = some owner;
    result = none;
    expires_at = now + lease;
  }),
)
begin_script request_hash owner lease now (some e) = (judge request_hash e, some e)

abbrev pub owned_by : ℕ → Entry → Bool
owned_by owner e = holds e.format_version 1 && (is_processing e.state && holds e.owner_token owner)

-- `_RENEW_SCRIPT`
unfoldable pub renew_script : (owner lease now : ℕ) → Option Entry → Bool × Option Entry
renew_script owner lease now none = (false, none)
renew_script owner lease now (some e) =
    if owned_by owner e && is_some e.request_hash
    then (true, some (record e { expires_at = now + lease }))
    else (false, some e)

-- `_COMPLETE_SCRIPT`
unfoldable pub complete_script :
    (owner : ℕ) → String → (ttl : ℕ) → Bytes → (now : ℕ) → Option Entry → Bool × Option Entry
complete_script owner encoded ttl request_hash now none = (false, none)
complete_script owner encoded ttl request_hash now (some e) =
    if owned_by owner e && has_hash e.request_hash request_hash
    then (
      true,
      some (record e {
        state = some completed;
        result = some encoded;
        owner_token = none;
        expires_at = now + ttl;
      }),
    )
    else (false, some e)

-- `_ABANDON_SCRIPT`
unfoldable pub abandon_script : (owner now : ℕ) → Option Entry → Bool × Option Entry
abandon_script owner now none = (false, none)
abandon_script owner now (some e) = if owned_by owner e then (true, none) else (false, some e)

-- The server drops an entry when its time to live is over.
abbrev pub lapse : ℕ → Option Entry → Option Entry
lapse now none = none
lapse now (some e) = if leb e.expires_at now then none else some e
