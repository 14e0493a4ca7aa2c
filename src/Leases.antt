-- ===== src/Leases.antt =====
-- internal/adapters/appdb/leases.go: the table distributed_leases, by which the instances of the
-- server agree on who runs a schedule.
--
-- A moment is a number of nanoseconds since 1970 in UTC. The table keeps it as the text of
-- time.RFC3339Nano and compares texts; the part of that text before the fraction is a parameter. A
-- time to live is the positive number of nanoseconds, or 0 where the source's is not positive.
pub mod Order
pub mod Held
pub mod Exclusive
pub mod Unique
pub mod Free
mod Tests
use topbase.Prelude.{
  ℕ, zero, suc, ◌+◌, ◌*◌, ◌/◌, ◌%◌, Bool, true, false, not, ◌&&◌, ◌||◌, List, [], ◌∷◌, ◌++◌, map,
  ltb, ◌==◌, if◌then◌else◌, any, keep, is_empty, Result, ok, err,
}
use topbase.Text.{Text, codes, text_eq}

pub record Lease : Type 0 where
  pub name : Text
  pub owner : Text
  pub expires_at : Text
  pub updated_at : Text

pub data LeaseError : Type 0 where
  lease_incomplete : LeaseError

-- The order of texts by which SQLite compares them.
unfoldable pub precedes : Text → Text → Bool
precedes s [] = false
precedes [] (b ∷ t) = true
precedes (a ∷ s) (b ∷ t) = ltb a b || (a == b && precedes s t)

abbrev pub second : ℕ
second = 1000000000

-- The digits of a fraction, the first first; a digit is left out when only zeros follow it.
unfoldable pub fraction_digits : ℕ → ℕ → Text → Text
fraction_digits zero n behind = behind
fraction_digits (suc k) n behind =
    fraction_digits k (n / 10)
      (if n % 10 == 0 && is_empty behind then [] else (48 + n % 10) ∷ behind)

unfoldable pub fraction : ℕ → Text
unfolding fraction_digits
fraction nanos = if nanos == 0 then [] else b'.' ∷ fraction_digits 9 nanos []

module _ (stamp : ℕ → Text) where
  -- Format(time.RFC3339Nano), with `stamp` for the part up to the seconds.
  unfoldable pub format : ℕ → Text
  unfolding fraction
  format moment = stamp (moment / second) ++ (fraction (moment % second) ++ codes "Z")

  abbrev pub new_lease : ℕ → ℕ → Text → Text → Lease
  new_lease now ttl name owner = record {
    name = name;
    owner = owner;
    expires_at = format (now + ttl);
    updated_at = format now;
  }

  -- The rows that the UPDATE changes.
  unfoldable pub may_take : ℕ → Text → Text → Lease → Bool
  may_take now name owner lease =
      text_eq lease.name name
      && (precedes lease.expires_at (format now) || text_eq lease.owner owner)

  -- INSERT OR IGNORE, and UPDATE; the flag is whether a row was changed.
  unfoldable pub insert_lease : ℕ → Text → Text → ℕ → List Lease → Bool × List Lease
  insert_lease now name owner ttl leases =
      if any (λ l. text_eq l.name name) leases
      then (false, leases)
      else (true, leases ++ new_lease now ttl name owner ∷ [])

  unfoldable pub update_lease : ℕ → Text → Text → ℕ → List Lease → Bool × List Lease
  unfolding may_take
  update_lease now name owner ttl leases = (
    any (may_take now name owner) leases,
    map (λ l. if may_take now name owner l then new_lease now ttl name owner else l) leases,
  )

  unfoldable pub update_unless : ℕ → Text → Text → ℕ → Bool × List Lease → Bool × List Lease
  unfolding update_lease
  update_unless now name owner ttl (inserted, leases) =
      if inserted then (true, leases) else update_lease now name owner ttl leases

  unfoldable pub acquire_lease :
      ℕ → Text → Text → ℕ → List Lease → Result LeaseError (Bool × List Lease)
  unfolding insert_lease update_unless
  acquire_lease now name owner ttl leases =
      if is_empty name || is_empty owner || ttl == 0
      then err lease_incomplete
      else ok (update_unless now name owner ttl (insert_lease now name owner ttl leases))

-- DELETE.
unfoldable pub release_lease : Text → Text → List Lease → List Lease
release_lease name owner leases =
    keep (λ l. not (text_eq l.name name && text_eq l.owner owner)) leases

-- The statements that the instances send, in the order in which the database carries them out: what
-- one AcquireLease sends may stand apart.
pub data Statement : Type 0 where
  insert update : ℕ → Text → Text → ℕ → Statement
  delete : Text → Text → Statement

module _ (stamp : ℕ → Text) where
  unfoldable pub perform : Statement → List Lease → List Lease
  unfolding insert_lease update_lease release_lease
  perform (insert now name owner ttl) leases = (insert_lease stamp now name owner ttl leases).1
  perform (update now name owner ttl) leases = (update_lease stamp now name owner ttl leases).1
  perform (delete name owner) leases = release_lease name owner leases

  unfoldable pub run : List Statement → List Lease → List Lease
  unfolding perform
  run [] leases = leases
  run (statement ∷ statements) leases = run statements (perform statement leases)
