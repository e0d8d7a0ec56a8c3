-- ===== src/Store/State.antt =====
-- internal/storage/memory.go: the fields of `MemoryStore`, and its errors.
use aiyolo.Base.{
  ℕ, String, ◌≡◌, refl, ◌⊎◌, inl, inr, ◌↔◌, Bool, true, false, ◌&&◌, ◌===◌, ◌==◌, eq_iff, List, [],
  Option, none, some, arith,
}
use aiyolo.Base.Int.{ℤ}
use aiyolo.Dict.{Dict, Key}
use aiyolo.Domain.Time.{Time}
use aiyolo.Domain.ApiKeys.{ApiKey, CodexInstallToken}
use aiyolo.Domain.Quota.{QuotaReservation}
use aiyolo.Domain.Routes.{Provider, ModelRoute, PricingRule, ProxyProfile}
use aiyolo.Domain.Usage.{UsageRecord}
use aiyolo.Domain.Chat.{ConsoleChatSession}
use aiyolo.Domain.Workers.{WorkerServer, WorkerInitJob, WorkerInitJobEvent}

-- `memoryLimitWindow`. A window counts the requests of one minute, so its count stays below 2 ^ 63.
pub record LimitWindow : Type 0 where
  pub requests : ℕ
  pub tokens : ℤ

-- The key `apiKeyID + ":" + windowStart.Format(time.RFC3339)` of a limit window, by its two parts.
-- For whole minutes in UTC up to the year 9999 the second part has twenty characters, so the text
-- determines both parts.
pub record WindowKey : Type 0 where
  pub api_key_id : String
  pub window_start : Time

abbrev same_window : WindowKey → WindowKey → Bool
same_window a b = a.api_key_id === b.api_key_id && a.window_start == b.window_start

pub same_window_iff : (a b : WindowKey) → (same_window a b ≡ true) ↔ (a ≡ b)
same_window_iff a b = ground (arith, eq_iff a.api_key_id b.api_key_id)

instance abbrev pub window_key : Key WindowKey
window_key = record { beq = same_window; beq_iff = same_window_iff }

pub record MemoryStore : Type 0 where
  pub api_keys : Dict String ApiKey
  pub codex_tokens : Dict String CodexInstallToken
  pub providers : Dict String Provider
  pub routes : Dict String ModelRoute
  pub pricing_rules : Dict String PricingRule
  pub proxies : Dict String ProxyProfile
  pub workers : Dict String WorkerServer
  pub worker_jobs : Dict String WorkerInitJob
  pub worker_job_events : Dict String (List WorkerInitJobEvent)
  pub chat_sessions : Dict String ConsoleChatSession
  pub usage : List UsageRecord
  pub limits : Dict WindowKey LimitWindow
  pub reservations : Dict String QuotaReservation

pub data Limit : Type 0 where
  concurrent rpm tpm : Limit

-- `ErrNotFound`, `ErrQuotaExceeded` with the limit that its message names, and the errors on a record
-- that lacks a field.
pub data StoreError : Type 0 where
  not_found : StoreError
  quota_exceeded : Limit → StoreError
  invalid : StoreError

pub data Result {ℓ} (A : Type ℓ) : Type ℓ where
  ok : A → Result A
  err : StoreError → Result A

pub Result-cases {ℓ} :
    {A : Type ℓ} (r : Result A) → ((a : A) × (r ≡ ok a)) ⊎ ((e : StoreError) × (r ≡ err e))
Result-cases (ok a) = inl (a, refl)
Result-cases (err e) = inr (e, refl)

abbrev pub or_not_found {ℓ} : {A : Type ℓ} → Option A → Result A
or_not_found none = err not_found
or_not_found (some a) = ok a

-- A `do` block stops at the first error, as `if err != nil { return err }` does.
infixl 5 ◌>>=◌ ◌>>◌
abbrev pub ◌>>=◌ {ℓ κ} : {S : Type ℓ} {R : Type κ} → Result S → (S → Result R) → Result R
err reason >>= next = err reason
ok value >>= next = next value

abbrev pub ◌>>◌ {κ} : {R : Type κ} → Result (Unit {0}) → Result R → Result R
err reason >> next = err reason
ok done >> next = next

-- `if test { return err }`
abbrev pub fail_if : Bool → StoreError → Result (Unit {0})
fail_if true e = err e
fail_if false e = ok tt

-- `NewMemoryStore`.
abbrev pub new_memory_store : MemoryStore
new_memory_store = record {
  api_keys = [];
  codex_tokens = [];
  providers = [];
  routes = [];
  pricing_rules = [];
  proxies = [];
  workers = [];
  worker_jobs = [];
  worker_job_events = [];
  chat_sessions = [];
  usage = [];
  limits = [];
  reservations = [];
}
