-- ===== src/Clock.antt =====
-- Python's `datetime` and `timedelta`, and `require_aware` of domain/base.py. An instant counts
-- microseconds from the year 1; a naive value has no UTC offset, and the code rejects it before it
-- compares it. `bytes` are their length and the number that they spell.
use andruha_identity_service.Prelude.{
  ℕ, ◌≤◌, ◌<◌, ◌≡◌, arith, ◌+◌, ◌-◌, Bool, false, not, ◌&&◌, ltb, leb, ◌==◌,
}
use andruha_identity_service.Errors.{Result, ok, raise_if, ◌>>◌, invalid_timestamp, overflow}

pub record DateTime : Type 0 where
  pub aware : Bool
  pub instant : ℕ

-- A difference of times, in microseconds: `negsuc n` is -(n + 1).
pub data ℤ : Type 0 where
  pos : ℕ → ℤ
  negsuc : ℕ → ℤ

abbrev pub is_positive : ℤ → Bool
is_positive (pos n) = ltb 0 n
is_positive (negsuc n) = false

abbrev shift : ℕ → ℤ → ℕ
shift t (pos n) = t + n
shift t (negsuc n) = t - (n + 1)

infixl 65 ◌+ℤ◌
-- `t + delta`, from the year 1 on.
abbrev pub ◌+ℤ◌ : DateTime → ℤ → DateTime
t +ℤ d = record t { instant = shift t.instant d }

-- `datetime.max`, in UTC
unfoldable pub max_instant : ℕ
max_instant = 315537897599999999

abbrev beyond : DateTime → ℤ → Bool
beyond t (pos n) = ltb max_instant (t.instant + n)
beyond t (negsuc n) = leb t.instant n

-- `t + delta` as Python computes it: a time that no `datetime` can be is an OverflowError.
abbrev pub checked_add : DateTime → ℤ → Result DateTime
checked_add t d = do raise_if (beyond t d) overflow; ok (t +ℤ d)

pub checked_add-ok : (t : DateTime) (d : ℤ) (u : DateTime) → checked_add t d ≡ ok u → u ≡ t +ℤ d
checked_add-ok t (pos n) u h = ground arith
checked_add-ok t (negsuc n) u h = ground arith

-- The sum is a time that a `datetime` can be.
abbrev pub Fits : DateTime → ℤ → Type 0
Fits t (pos n) = t.instant + n ≤ max_instant
Fits t (negsuc n) = n < t.instant

pub checked_add-Fits : (t : DateTime) (d : ℤ) → Fits t d → checked_add t d ≡ ok (t +ℤ d)
checked_add-Fits t (pos n) h = ground arith
checked_add-Fits t (negsuc n) h = ground arith

abbrev pub before : DateTime → DateTime → Bool
before a b = ltb a.instant b.instant

abbrev pub not_after : DateTime → DateTime → Bool
not_after a b = leb a.instant b.instant

abbrev pub require_aware : DateTime → Result (Unit {0})
require_aware t = raise_if (not t.aware) invalid_timestamp

pub record Bytes : Type 0 where
  pub size : ℕ
  pub value : ℕ

abbrev pub same_bytes : Bytes → Bytes → Bool
same_bytes a b = a.size == b.size && a.value == b.value
