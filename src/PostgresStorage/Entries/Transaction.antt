-- ===== src/PostgresStorage/Entries/Transaction.antt =====
-- appendAndCount of PostgresAggregationStore, demo/src/postgres-storage.ts: one client, its
-- transaction, and what `catch` and `finally` do. The database may refuse any statement. A refused
-- statement changes nothing; BEGIN, COMMIT and ROLLBACK are those of Postgres, where an id that is
-- drawn stays drawn.
use test_assestment.Common.{ℕ, ◌+◌, ◌-◌, String, Option, none, some, get_or, Result, ok, throw}
use test_assestment.AggregationStore.{AggregationEntry}
use test_assestment.PostgresStorage.Entries.{EntryTable, append, count_with}

pub data Statement : Type 0 where
  connect begin insert count commit rollback : Statement

pub record Session {ℓ} (P : Type ℓ) : Type ℓ where
  -- What is committed.
  pub table : EntryTable P
  -- What the client sees, while its transaction is open.
  pub transaction : Option (EntryTable P)
  -- Clients of the pool that are not released.
  pub clients : ℕ

abbrev pub Exec {ℓ κ μ} : Type ℓ → Type κ → Type μ → Type (ℓ ⊔ κ ⊔ μ)
Exec P E A = Session P → Result E A × Session P

module _ {ℓ} {P : Type ℓ} where
  unfoldable pub session : EntryTable P → Session P
  session table = record { table = table; transaction = none; clients = 0 }

  -- `pool.connect()`
  unfoldable pub take_client : Session P → Session P
  take_client s = record s { clients = s.clients + 1 }

  -- `client.release()`
  unfoldable pub release_client : Session P → Session P
  release_client s = record s { clients = s.clients - 1 }

  unfoldable pub begin_transaction : Session P → Session P
  begin_transaction s = elim s.transaction [
    | none ↦ record s { transaction = some s.table }
    | some t ↦ s
  ]

  unfoldable pub commit_transaction : Session P → Session P
  commit_transaction s = elim s.transaction [
    | none ↦ s
    | some t ↦ record s { table = t; transaction = none }
  ]

  unfoldable pub discard_transaction : Session P → Session P
  discard_transaction s = record s { transaction = none }

  unfoldable pub seen : Session P → EntryTable P
  seen s = get_or s.transaction s.table

  -- Without a transaction, what is written is committed at once.
  unfoldable pub write : EntryTable P → Session P → Session P
  write t s = elim s.transaction [
    | none ↦ record s { table = t }
    | some u ↦ record s { table = record s.table { next_id = t.next_id }; transaction = some t }
  ]

  module _ {κ} {E : Type κ} where
    abbrev continue {μ ν} : {A : Type μ} {B : Type ν} → (A → Exec P E B) → Result E A → Exec P E B
    continue f (ok a) s = f a s
    continue f (throw e) s = (throw e, s)

    abbrev pub pure {μ} : {A : Type μ} → A → Exec P E A
    pure a s = (ok a, s)

    infixl 5 ◌>>=◌
    unfoldable pub ◌>>=◌ {μ ν} :
        {A : Type μ} {B : Type ν} → Exec P E A → (A → Exec P E B) → Exec P E B
    ◌>>=◌ m f s = let (r, s') = m s in continue f r s'

    module _ (refuses : Statement → Option E) where
      abbrev answer {μ} : {A : Type μ} → Option E → A × Session P → Exec P E A
      answer none (a, s') s = (ok a, s')
      answer (some e) done s = (throw e, s)

      -- `await client.query(…)`
      unfoldable pub query {μ} : {A : Type μ} → Statement → (Session P → A × Session P) → Exec P E A
      query statement work s = answer (refuses statement) (work s) s

      -- A statement that gives nothing back
      unfoldable pub command : Statement → (Session P → Session P) → Exec P E (Unit {0})
      unfolding query
      command statement work = query statement (λ s. (tt, work s))

      -- Its own refusal is dropped.
      unfoldable pub roll_back : Session P → Session P
      unfolding command discard_transaction
      roll_back s = (command rollback discard_transaction s).1

      abbrev catch {μ} : {A : Type μ} → Result E A × Session P → Result E A × Session P
      catch (ok a, s) = (ok a, s)
      catch (throw e, s) = (throw e, roll_back s)

      -- `try { … } catch (err) { await rollback(client); throw err; } finally { client.release(); }`
      unfoldable pub in_try {μ} : {A : Type μ} → Exec P E A → Exec P E A
      unfolding roll_back release_client
      in_try m s = let (r, s') = catch (m s) in (r, release_client s')

      module _ (stored : P → P) (rule_id action_id key_id : String) (entry : AggregationEntry P)
          (window_ms now : ℕ) where
        unfoldable pub insert_and_count : Exec P E ℕ
        unfolding ◌>>=◌ query command begin_transaction commit_transaction seen write append
            count_with
        insert_and_count = do
          begun ← command begin begin_transaction
          inserted ←
              command insert (λ s. write (append stored rule_id action_id key_id entry (seen s)) s)
          n ← query count (λ s. (count_with rule_id action_id key_id window_ms now (seen s), s))
          committed ← command commit commit_transaction
          pure n

        unfoldable pub append_and_count : Exec P E ℕ
        unfolding ◌>>=◌ command take_client in_try insert_and_count
        append_and_count = command connect take_client >>= (λ client. in_try insert_and_count)
