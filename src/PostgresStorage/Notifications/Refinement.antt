-- ===== src/PostgresStorage/Notifications/Refinement.antt =====
-- The table answers every sequence of calls as the in-memory store does.
use mathlib.Core.List.{map-append}
use test_assestment.Common.{
  ℕ, ◌+◌, ◌<◌, String, ◌≡◌, refl, ap, ap₂, ◌∙◌, List, [], ◌∷◌, map, arith, All, All-mono,
  All-append, IsSortedBy, IsSortedBy-concat, sort_by_of_IsSortedBy,
}
use test_assestment.Demo.Store
use test_assestment.Demo.Store.{DemoStore, Call, create_demo_store, adds, lists, clears, listed}
use test_assestment.PostgresStorage.Notifications.{
  NotificationTable, init, to_notification, call, calls,
}

module _ (iso : ℕ → String) where
  record Refines (s : DemoStore) (t : NotificationTable) : Type 0 where
    pub ascending : IsSortedBy (λ row. row.id) t.rows
    pub fresh : All (λ row. row.id < t.next_id) t.rows
    pub next : t.next_id ≡ s.next_id
    pub same : map (to_notification iso) t.rows ≡ s.notifications

  call-Refines :
      (now : ℕ) (c : Call) (s : DemoStore) (t : NotificationTable)
      → Refines s t
      → ((call iso now c t).0 ≡ (Store.call iso now c s).0)
        × Refines (Store.call iso now c s).1 (call iso now c t).1
  unfolding call Store.call
  call-Refines now (adds input) s t h = (
    unfold to_notification in rw h.next,
    record {
      ascending =
          IsSortedBy-concat (λ row. row.id) t.rows _
            (All-mono (λ row q. omega arith) t.rows h.fresh) h.ascending;
      fresh =
          All-append _ t.rows _ (All-mono (λ row q. omega arith) t.rows h.fresh) (omega arith, tt);
      next = ap (λ n. n + 1) h.next;
      same = rw (map-append, h.same) (unfold to_notification in rw h.next);
    },
  )
  call-Refines now lists s t h = (
    ap listed (
        ap (map (to_notification iso)) (sort_by_of_IsSortedBy (λ row. row.id) t.rows h.ascending)
        ∙ h.same),
    h,
  )
  call-Refines now clears s t h =
      (refl, record { ascending = tt; fresh = tt; next = refl; same = refl })

  calls-Refines :
      (cs : List (ℕ × Call)) (s : DemoStore) (t : NotificationTable)
      → Refines s t
      → calls iso cs t ≡ Store.calls iso cs s
  unfolding calls Store.calls
  calls-Refines [] s t h = refl
  calls-Refines ((now, c) ∷ cs) s t h =
      let (same, h') = call-Refines now c s t h in ap₂ ◌∷◌ same (calls-Refines cs _ _ h')

  -- Whatever notifications are added, listed and cleared at the same times, the empty table and a
  -- new in-memory store give the same answers, the ids of the notifications included.
  pub calls-create :
      (cs : List (ℕ × Call)) → calls iso cs init ≡ Store.calls iso cs create_demo_store
  unfolding init create_demo_store
  calls-create cs =
      calls-Refines cs _ _ (record { ascending = tt; fresh = tt; next = refl; same = refl })
