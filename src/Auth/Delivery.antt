-- ===== src/Auth/Delivery.antt =====
-- application/use_cases/refresh/handler.py: which pairs `RefreshHandler` hands out.
use andruha_identity_service.Prelude.{
  ℕ, String, ◌≤◌, ◌<◌, ◌≡◌, refl, ap, ◌∙◌, subst, inl, inr, true, not, Option, none, some, arith,
  str_eq, eq_iff, is_some, if_cases,
}
use andruha_identity_service.Errors.{Result, ok, raise, ◌>>=◌}
use andruha_identity_service.UnitOfWork.{close}
use andruha_identity_service.Clock.{DateTime, ℤ, Bytes}
use andruha_identity_service.Session.{AuthSession, RefreshToken, can_replay}
use andruha_identity_service.Idempotency.Record.{
  ExecutionOutcome, executed, replay, conflict, in_progress, CompletedIdempotencyResult,
  ExecutionResult,
}
use andruha_identity_service.Idempotency.Durable
use andruha_identity_service.Idempotency.Durable.{Store, Run}
use andruha_identity_service.Coordinator.Execute.{HotOps, Coordination, execute}
use andruha_identity_service.Table.{In}
use andruha_identity_service.SessionStore.{SessionRow, AuthDatabase, get_by_refresh_id}
use andruha_identity_service.SessionStore.Writing.{>>=-ok}
use andruha_identity_service.SessionStore.Reading.{get-Presents}
use andruha_identity_service.Auth.Tokens.{TokenPair, Issuer}
use andruha_identity_service.Auth.Exchange.{
  Protector, success_type, rejected_type, refresh_operation,
}
use andruha_identity_service.Auth.Replaying.{
  replay-IsLive, check-live, as_unavailable-ok, shown_token, live_row,
}
use andruha_identity_service.Auth.Refresh.{
  RefreshCommand, identity, check_replay, request_hash, check_session, restored, deliver_parsed,
  after_check, deliver, successful, answer_completed, completed_or, conclude, concluded, refresh,
}

module _ (w : Durable.World AuthDatabase) (g : Issuer) (p : Protector) (idle_ttl retention : ℤ)
    (fingerprint : Bytes → Bytes) (command : RefreshCommand) where
  -- The stored result behind a pair, and the token and the session that it was checked against.
  pub record Delivered (stored : CompletedIdempotencyResult) (pair : TokenPair)
      (run : Run AuthDatabase) : Type 0 where
    pub successful : stored.result.result_type ≡ success_type
    pub payload : String
    pub carried : stored.result.result_payload ≡ some payload
    pub resource_id : String
    pub named : stored.result.resource_id ≡ some resource_id
    pub token_id : ℕ
    pub parsed : p.parse_uuid resource_id ≡ ok token_id
    pub text : String
    pub decrypted :
        p.restore payload (
          p.replay_aad
            (record {
              subject_id = "public-refresh";
              operation = "auth.refresh";
              key_hash = command.key_hash;
            })
            (fingerprint (g.digest command.refresh_token))
            success_type
            stored.result.result_version)
        ≡ ok text
    pub loaded : p.load_pair text ≡ ok pair
    pub token : RefreshToken
    pub kept : In token (w.others run.tick run.store).state.tokens
    pub same_id : token.id ≡ token_id
    pub unused : token.used_at ≡ none
    pub row : SessionRow
    pub listed : In row (w.others run.tick run.store).state.sessions
    pub owner : row.id ≡ token.session_id
    pub not_revoked : row.revoked_at ≡ none
    pub begun : row.created_at.instant ≤ (w.clock run.tick).instant
    pub not_expired : (w.clock run.tick).instant < row.idle_expires_at.instant

  abbrev seen_in : Store AuthDatabase → Result (Unit {0} × Store AuthDatabase)
  seen_in s = ok (tt, s)

  -- What the last transaction has seen, when the pair is handed out.
  transaction-checked :
      (now : DateTime) (token_id : ℕ) (run run' : Run AuthDatabase)
      → Durable.transaction w retention
          (identity command)
          (request_hash w g p idle_ttl retention fingerprint command)
          (check_session w g p idle_ttl retention fingerprint command now token_id)
          run
        ≡ (ok tt, run')
      → (s : AuthSession) × (get_by_refresh_id token_id (w.others run.tick run.store).state
          ≡ ok (some s))
        × (can_replay now s ≡ ok true)
  unfolding Durable.transaction close check_session
  transaction-checked now token_id run run' h =
      let before = w.others run.tick run.store in
      let body = check_session w g p idle_ttl retention fingerprint command now token_id in
      let ran : body before ≡ ok (tt, run'.store) = ground (arith, h) in
      let (o, found, rest) =
        >>=-ok (get_by_refresh_id token_id before.state)
          (λ o. check_replay now o >>= λ x. seen_in before) (tt, run'.store) ran in
      let (x, checked, _) =
        >>=-ok (check_replay now o) (λ x. seen_in before) (tt, run'.store) rest in
      let (s, is_some, able) = check-live now o checked in (s, found ∙ ap ok is_some, able)

  restored-ok :
      (stored : CompletedIdempotencyResult) (pair : TokenPair) (payload : String)
      → restored w g p idle_ttl retention fingerprint command stored payload ≡ ok pair
      → (text : String) × (p.restore payload (
            p.replay_aad
              (identity command)
              (request_hash w g p idle_ttl retention fingerprint command)
              stored.result.result_type
              stored.result.result_version)
          ≡ ok text)
        × (p.load_pair text ≡ ok pair)
  unfolding restored
  restored-ok stored pair payload h =
      >>=-ok
        (p.restore payload (
          p.replay_aad (identity command)
            (request_hash w g p idle_ttl retention fingerprint command) stored.result.result_type
            stored.result.result_version))
        p.load_pair pair h

  checked-Delivered :
      (stored : CompletedIdempotencyResult) (pair : TokenPair) (payload resource_id : String)
      (token_id : ℕ) (run : Run AuthDatabase) (x : Result (Unit {0}) × Run AuthDatabase)
      → Durable.transaction w retention
          (identity command)
          (request_hash w g p idle_ttl retention fingerprint command)
          (check_session w g p idle_ttl retention fingerprint command (w.clock run.tick) token_id)
          run
        ≡ x
      → stored.result.result_type ≡ success_type
      → stored.result.result_payload ≡ some payload
      → stored.result.resource_id ≡ some resource_id
      → p.parse_uuid resource_id ≡ ok token_id
      → (after_check w g p idle_ttl retention fingerprint command stored payload x).0 ≡ ok pair
      → Delivered stored pair run
  unfolding after_check
  checked-Delivered stored pair payload resource_id token_id run (raise e, run') t s c n i h =
      absurd (ground arith)
  checked-Delivered stored pair payload resource_id token_id run (ok tt, run') t s c n i h =
      let (session, read, able) = transaction-checked (w.clock run.tick) token_id run run' t in
      let (live, shown, presented, unused) = replay-IsLive (w.clock run.tick) session able in
      let (token, found) = get-Presents token_id (w.others run.tick run.store).state session read in
      let same : shown ≡ token = shown_token session shown token found.row presented found.read in
      let rows = live_row (w.clock run.tick) session token found.row found.read live in
      let (text, decrypted, loaded) = restored-ok stored pair payload h in
      record {
        successful = s;
        payload = payload;
        carried = c;
        resource_id = resource_id;
        named = n;
        token_id = token_id;
        parsed = i;
        text = text;
        decrypted =
            subst
              (λ x.
                p.restore payload (
                  p.replay_aad (identity command)
                    (request_hash w g p idle_ttl retention fingerprint command) x
                    stored.result.result_version)
                ≡ ok text)
              s decrypted;
        loaded = loaded;
        token = token;
        kept = found.stored;
        same_id = found.named;
        unused = subst (λ (t : RefreshToken). t.used_at ≡ none) same unused;
        row = found.row;
        listed = found.listed;
        owner = found.owner;
        not_revoked = rows.0;
        begun = rows.1;
        not_expired = rows.2;
      }

  deliver-Delivered :
      (stored : CompletedIdempotencyResult) (pair : TokenPair) (payload resource_id : String)
      (run : Run AuthDatabase) (parsed : Result ℕ)
      → p.parse_uuid resource_id ≡ parsed
      → stored.result.result_type ≡ success_type
      → stored.result.result_payload ≡ some payload
      → stored.result.resource_id ≡ some resource_id
      → (deliver_parsed w g p idle_ttl retention fingerprint command stored payload parsed run).0
        ≡ ok pair
      → Delivered stored pair run
  unfolding deliver_parsed
  deliver-Delivered stored pair payload resource_id run (raise e) q s c n h = absurd (ground arith)
  deliver-Delivered stored pair payload resource_id run (ok token_id) q s c n h =
      checked-Delivered stored pair payload resource_id token_id run _ refl s c n q h

  successful-Delivered :
      (stored : CompletedIdempotencyResult) (pair : TokenPair) (payload id : Option String)
      (run : Run AuthDatabase)
      → stored.result.result_type ≡ success_type
      → stored.result.result_payload ≡ payload
      → stored.result.resource_id ≡ id
      → (successful w g p idle_ttl retention fingerprint command stored payload id run).0 ≡ ok pair
      → Delivered stored pair run
  unfolding successful deliver
  successful-Delivered stored pair none id run s c n h = absurd (ground arith)
  successful-Delivered stored pair (some payload) none run s c n h = absurd (ground arith)
  successful-Delivered stored pair (some payload) (some id) run s c n h =
      deliver-Delivered stored pair payload id run (p.parse_uuid id) refl s c n (
        as_unavailable-ok
          (deliver_parsed w g p idle_ttl retention fingerprint command stored payload
            (p.parse_uuid id) run).0
          pair h)

  completed-Delivered :
      (stored : CompletedIdempotencyResult) (pair : TokenPair) (run : Run AuthDatabase)
      → (answer_completed w g p idle_ttl retention fingerprint command stored run).0 ≡ ok pair
      → Delivered stored pair run
  unfolding answer_completed
  completed-Delivered stored pair run h =
      let P = λ (x : Result TokenPair × Run AuthDatabase). x.0 ≡ ok pair in
      elim (if_cases P (str_eq stored.result.result_type rejected_type) h) [
        | inl (_, k) ↦ cc
        | inr (_, k) ↦ elim (if_cases P (not (str_eq stored.result.result_type success_type)) k) [
          | inl (_, m) ↦ cc
          | inr (e, m) ↦
              successful-Delivered stored pair stored.result.result_payload
                stored.result.resource_id run
                (ground (arith, e, eq_iff stored.result.result_type success_type)) refl refl m
        ]
      ]

  conclude-Delivered :
      (outcome : ExecutionOutcome) (o : Option CompletedIdempotencyResult) (pair : TokenPair)
      (run : Run AuthDatabase)
      → (conclude w g p idle_ttl retention fingerprint command outcome o run).0 ≡ ok pair
      → (stored : CompletedIdempotencyResult) × (o ≡ some stored) × Delivered stored pair run
  unfolding conclude completed_or
  conclude-Delivered conflict o pair run h = absurd (ground arith)
  conclude-Delivered in_progress o pair run h = absurd (ground arith)
  conclude-Delivered executed none pair run h = absurd (ground arith)
  conclude-Delivered executed (some c) pair run h = (c, refl, completed-Delivered c pair run h)
  conclude-Delivered replay none pair run h = absurd (ground arith)
  conclude-Delivered replay (some c) pair run h = (c, refl, completed-Delivered c pair run h)

  module _ {Hot : Type 0} (store : Option (HotOps Hot)) (owner lease beats : ℕ) (now : DateTime)
      (draw token_id : ℕ) where
    -- The coordinator's answer to a refresh request
    abbrev pub coordinated :
        Coordination Hot AuthDatabase → Result ExecutionResult × Coordination Hot AuthDatabase
    coordinated c =
        execute w retention (identity command)
          (request_hash w g p idle_ttl retention fingerprint command)
          (refresh_operation g p idle_ttl (identity command)
            (request_hash w g p idle_ttl retention fingerprint command) now draw token_id
            command.refresh_token)
          store owner lease beats c

    concluded-Delivered :
        (x : Result ExecutionResult × Coordination Hot AuthDatabase) (pair : TokenPair)
        → (concluded w g p idle_ttl retention fingerprint command x).0 ≡ ok pair
        → (r : ExecutionResult) × (stored : CompletedIdempotencyResult) × (x.0 ≡ ok r)
          × (r.completed ≡ some stored)
          × Delivered stored pair x.1.run
    unfolding concluded
    concluded-Delivered (raise e, c) pair h = absurd (ground arith)
    concluded-Delivered (ok r, c) pair h =
        let (stored, e, d) = conclude-Delivered r.outcome r.completed pair c.run h in
        (r, stored, refl, e, d)

    -- A pair is handed out only for the successful result that the coordinator reports, executed now
    -- or replayed: it is read from what that result's payload decrypts to, for the key and the
    -- fingerprint of this request; and in the transaction after the coordinator's answer a token
    -- with the identifier that the result names is stored, it is unused, and the row of its session
    -- is neither revoked nor past its idle deadline.
    pub refresh-Delivered :
        (c : Coordination Hot AuthDatabase) (pair : TokenPair)
        → (refresh w g p idle_ttl retention fingerprint command store owner lease beats now draw
            token_id c).0
          ≡ ok pair
        → (r : ExecutionResult) × (stored : CompletedIdempotencyResult) × ((coordinated c).0 ≡ ok r)
          × (r.completed ≡ some stored)
          × Delivered stored pair (coordinated c).1.run
    unfolding refresh
    refresh-Delivered c pair h = concluded-Delivered (coordinated c) pair h
