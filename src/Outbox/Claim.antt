-- ===== src/Outbox/Claim.antt =====
-- infrastructure/database/repositories/outbox_repository.py: `claim_batch`. The table is a list of
-- rows; `locked` tells which rows FOR UPDATE SKIP LOCKED finds locked by other transactions.
use andruha_identity_service.Prelude.{
  ℕ, Bool, false, not, ◌&&◌, ◌||◌, Option, none, some, List, map, str_eq, leb, ◌==◌, take,
}
use andruha_identity_service.Errors.{Result, ok, raise_if, ◌>>◌, value_error}
use andruha_identity_service.Clock.{DateTime, not_after}
use andruha_identity_service.Table.{exists, select, update, order_by}
use andruha_identity_service.Outbox.Message.{
  claimed, OutboxMessage, is_pending, is_claimed, is_nonterminal, earlier,
}

abbrev due : DateTime → Option DateTime → Bool
due at none = false
due at (some t) = not_after t at

unfoldable pub eligible : DateTime → OutboxMessage → Bool
eligible claimed_at m =
    is_pending m.status && not_after m.available_at claimed_at
    || is_claimed m.status && due claimed_at m.claim_expires_at

-- `has_earlier_nonterminal_for_key`, of one row
unfoldable pub blocks : OutboxMessage → OutboxMessage → Bool
unfolding earlier
blocks candidate e = str_eq e.key candidate.key && (is_nonterminal e.status && earlier e candidate)

unfoldable pub claimable : DateTime → (ℕ → Bool) → List OutboxMessage → OutboxMessage → Bool
unfolding eligible blocks
claimable claimed_at locked rows m =
    eligible claimed_at m && (not (exists (blocks m) rows) && not (locked m.id))

-- The common table expression of `claim_batch`: the claimable rows, the earliest first.
unfoldable pub candidates : DateTime → (ℕ → Bool) → ℕ → List OutboxMessage → List OutboxMessage
unfolding claimable earlier
candidates claimed_at locked limit rows =
    take limit (order_by earlier (select (claimable claimed_at locked rows) rows))

unfoldable pub chosen : DateTime → (ℕ → Bool) → ℕ → List OutboxMessage → OutboxMessage → Bool
unfolding candidates
chosen claimed_at locked limit rows m =
    exists (λ c. c.id == m.id) (candidates claimed_at locked limit rows)

-- `stamp` is what `func.now()` is in the transaction: each UPDATE of the ORM sets `updated_at` to it.
abbrev pub claim : DateTime → ℕ → DateTime → OutboxMessage → OutboxMessage
claim stamp owner expires m = record m {
  status = claimed;
  claim_token = some owner;
  claim_expires_at = some expires;
  terminal_at = none;
  updated_at = some stamp;
}

-- The rows that the UPDATE returns, sorted again in Python.
unfoldable pub returned :
    DateTime → ℕ → DateTime → DateTime → (ℕ → Bool) → ℕ → List OutboxMessage → List OutboxMessage
unfolding chosen earlier
returned stamp owner claimed_at expires locked limit rows =
    order_by earlier
      (map (claim stamp owner expires) (select (chosen claimed_at locked limit rows) rows))

-- `claim_batch`: the claimed rows, and the table
unfoldable pub claim_batch :
    (stamp : DateTime) (owner : ℕ) (claimed_at expires : DateTime) (limit : ℕ) (locked : ℕ → Bool)
    → List OutboxMessage
    → Result (List OutboxMessage × List OutboxMessage)
unfolding returned
claim_batch stamp owner claimed_at expires limit locked rows = do
  raise_if (leb limit 0) value_error
  raise_if (not_after expires claimed_at) value_error
  ok (
    returned stamp owner claimed_at expires locked limit rows,
    update (chosen claimed_at locked limit rows) (claim stamp owner expires) rows,
  )
