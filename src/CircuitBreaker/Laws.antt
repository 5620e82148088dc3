-- ===== src/CircuitBreaker/Laws.antt =====
-- The circuit breaker moves no units, and opening it is what the next reservation sees.
use nektron_moments.Base.{String, ◌≡◌, refl, false, none, some, arith, ◌∙◌, inl, inr, Option-cases}
use nektron_moments.Clock.{DateTime}
use nektron_moments.Records.{UsageKey, ProcessingJob}
use nektron_moments.Ledger.{Ledger, get, touch}
use nektron_moments.Ledger.Laws.{get-touch, same_key_refl}
use nektron_moments.Reservations.Held.{reserved_at}
use nektron_moments.CircuitBreaker.{
  circuit_key, opened, closed_again, row_is_open, open_provider_circuit, provider_circuit_is_open,
  close_provider_circuit,
}

reserved_at-opened :
    (j k : UsageKey) (now : DateTime) (code : String) (l : Ledger)
    → reserved_at j (touch k (opened now code) l) ≡ reserved_at j l
unfolding opened
reserved_at-opened j k now code l = ground (arith, get-touch j k (opened now code) l)

pub reserved_at-open_circuit :
    (j : UsageKey) (now : DateTime) (code : String) (l : Ledger) (job : ProcessingJob)
    → reserved_at j (open_provider_circuit now code l job) ≡ reserved_at j l
unfolding open_provider_circuit
reserved_at-open_circuit j now code l job = elim (Option-cases (circuit_key now job)) [
  | inl none_named ↦ rw (none_named, open_provider_circuit) refl
  | inr (k, e) ↦ rw (e, open_provider_circuit) (reserved_at-opened j k now code l)
]

reserved_at-closed :
    (j k : UsageKey) (now : DateTime) (l : Ledger)
    → reserved_at j (touch k (closed_again now) l) ≡ reserved_at j l
unfolding closed_again
reserved_at-closed j k now l = ground (arith, get-touch j k (closed_again now) l)

pub reserved_at-close_circuit :
    (j : UsageKey) (now : DateTime) (l : Ledger) (job : ProcessingJob)
    → reserved_at j (close_provider_circuit now l job) ≡ reserved_at j l
unfolding close_provider_circuit
reserved_at-close_circuit j now l job = elim (Option-cases (circuit_key now job)) [
  | inl none_named ↦ rw (none_named, close_provider_circuit) refl
  | inr (k, e) ↦ rw (e, close_provider_circuit) (reserved_at-closed j k now l)
]

touch_closed :
    (k : UsageKey) (now : DateTime) (l : Ledger)
    → row_is_open (get k (touch k (closed_again now) l)) ≡ false
unfolding closed_again row_is_open
touch_closed k now l = ground (arith, get-touch k k (closed_again now) l, same_key_refl k)

is_open_at :
    (now : DateTime) (l : Ledger) (job : ProcessingJob) (k : UsageKey)
    → circuit_key now job ≡ some k
    → provider_circuit_is_open now l job ≡ row_is_open (get k l)
unfolding provider_circuit_is_open
is_open_at now l job k e = rw (e, provider_circuit_is_open)

never_open :
    (now : DateTime) (l : Ledger) (job : ProcessingJob)
    → circuit_key now job ≡ none
    → provider_circuit_is_open now l job ≡ false
unfolding provider_circuit_is_open
never_open now l job e = rw (e, provider_circuit_is_open)

close_at :
    (now : DateTime) (l : Ledger) (job : ProcessingJob) (k : UsageKey)
    → circuit_key now job ≡ some k
    → close_provider_circuit now l job ≡ touch k (closed_again now) l
unfolding close_provider_circuit
close_at now l job k e = rw (e, close_provider_circuit)

-- Closing a job's circuit leaves it closed for the rest of that instant, whatever it was.
pub close_circuit_closes :
    (now : DateTime) (l : Ledger) (job : ProcessingJob)
    → provider_circuit_is_open now (close_provider_circuit now l job) job ≡ false
close_circuit_closes now l job = elim (Option-cases (circuit_key now job)) [
  | inl none_named ↦ never_open now (close_provider_circuit now l job) job none_named
  | inr (k, e) ↦
      is_open_at now (close_provider_circuit now l job) job k e
      ∙ rw (close_at now l job k e) (touch_closed k now l)
]
