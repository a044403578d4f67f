-- ===== src/ScheduledStore.antt =====
-- engine/src/utility/scheduled-store.ts and its interface in engine/src/public/stores.ts: pending
-- checks, one for each rule and key, claimed under a lease.
pub mod Records
pub mod Claims
pub mod Leases
pub mod Calls
mod Tests
use test_assestment.Common.{
  ℕ, zero, suc, ◌+◌, ◌-◌, String, Bool, true, false, not, ◌&&◌, Option, none, some, get_or, List,
  [], ◌∷◌, ◌++◌, map, ltb, leb, if◌then◌else◌, take, filter, sort_by, str_append,
}
use mathlib.Core.List.{flatten}
use test_assestment.JsMap.{Map, get, set, delete, values}

pub record ScheduledCheck {ℓ} (P : Type ℓ) : Type ℓ where
  pub rule_id : String
  pub key_id : String
  pub run_at : ℕ
  pub scheduled_at : ℕ
  pub deadline : Option ℕ
  pub payload : P

pub record Store {ℓ} (P : Type ℓ) : Type ℓ where
  -- ruleId → keyId → record
  pub records : Map (Map (ScheduledCheck P))
  -- `${ruleId}:${keyId}` → the end of the lease; absent means unleased
  pub leases : Map ℕ

unfoldable pub lease_key : String → String → String
lease_key rule_id key_id = str_append rule_id (str_append ":" key_id)

-- `until !== undefined && until > now`
abbrev pub is_held : ℕ → Option ℕ → Bool
is_held now none = false
is_held now (some until) = ltb now until

module _ {ℓ} {P : Type ℓ} where
  unfoldable pub create : Store P
  create = record { records = []; leases = [] }

  -- `records.get(ruleId)?.get(keyId)`
  unfoldable pub find : String → String → Store P → Option (ScheduledCheck P)
  find rule_id key_id st = get key_id (get_or (get rule_id st.records) [])

  -- The inner map, created where it is missing, with a record written into it.
  abbrev pub file :
      ScheduledCheck P
      → String
      → String
      → Map (Map (ScheduledCheck P))
      → Map (Map (ScheduledCheck P))
  file rec rule_id key_id records =
      set rule_id (set key_id rec (get_or (get rule_id records) [])) records

  unfoldable pub enqueue : String → String → ℕ → P → ℕ → Option ℕ → Store P → Store P
  unfolding lease_key
  enqueue rule_id key_id run_at payload scheduled_at deadline st = record {
    records =
        file
          (record {
            rule_id = rule_id;
            key_id = key_id;
            run_at = run_at;
            scheduled_at = scheduled_at;
            deadline = deadline;
            payload = payload;
          })
          rule_id key_id st.records;
    leases = delete (lease_key rule_id key_id) st.leases;
  }

  unfoldable pub is_leased : ℕ → ScheduledCheck P → Map ℕ → Bool
  is_leased now rec leases = is_held now (get (lease_key rec.rule_id rec.key_id) leases)

  -- What the two `continue` lines of `claim` let through.
  unfoldable pub is_candidate : ℕ → Map ℕ → ScheduledCheck P → Bool
  is_candidate now leases rec = leb rec.run_at now && not (is_leased now rec leases)

  unfoldable pub candidates : ℕ → Store P → List (ScheduledCheck P)
  candidates now st = filter (is_candidate now st.leases) (flatten (map values (values st.records)))

  unfoldable pub lease_all : ℕ → List (ScheduledCheck P) → Map ℕ → Map ℕ
  lease_all until [] leases = leases
  lease_all until (rec ∷ claimed) leases =
      lease_all until claimed (set (lease_key rec.rule_id rec.key_id) until leases)

  unfoldable pub claim : ℕ → ℕ → ℕ → Store P → List (ScheduledCheck P) × Store P
  claim now limit lease_ms st =
      let claimed = take limit (sort_by (λ rec. rec.run_at) (candidates now st)) in
      let leases =
        if ltb 0 lease_ms then lease_all (now + lease_ms) claimed st.leases else st.leases in
      (claimed, record st { leases = leases })

  -- `byKey.delete(keyId)` on the inner map, where there is one
  abbrev pub unfile : String → String → Map (Map (ScheduledCheck P)) → Map (Map (ScheduledCheck P))
  unfile rule_id key_id records = elim (get rule_id records) [
    | none ↦ records
    | some by_key ↦ set rule_id (delete key_id by_key) records
  ]

  unfoldable pub remove : String → String → Store P → Store P
  remove rule_id key_id st = record {
    records = unfile rule_id key_id st.records;
    leases = delete (lease_key rule_id key_id) st.leases;
  }

  unfoldable pub reschedule : String → String → ℕ → Store P → Store P
  unfolding find lease_key
  reschedule rule_id key_id new_run_at st = elim (find rule_id key_id st) [
    | none ↦ st
    | some rec ↦ record {
      records = file (record rec { run_at = new_run_at }) rule_id key_id st.records;
      leases = delete (lease_key rule_id key_id) st.leases;
    }
  ]
