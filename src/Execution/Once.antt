-- ===== src/Execution/Once.antt =====
-- internal/execution/engine.go: an execution is hedged once.
use upcow.Base.{
  ℕ, String, Bool, true, false, not, ◌&&◌, ◌+◌, ◌≤◌, ◌≢◌, ◌⊎◌, inl, inr, if◌then◌else◌, List, [],
  ◌∷◌, Option, none, some, ◌≡◌, refl, arith, if_pos, if_neg, ite,
}
use upcow.Base.Int.{ℤ}
use upcow.Base.Float.{Float}
use upcow.Base.Text.{String_discrete}
use upcow.Base.Dict.{Dict, lookup, insert, lookup-insert}
use upcow.Domain.Market.{is_empty, eq_text}
use upcow.Domain.Order.{Order}
use upcow.Execution.{ExecutionEngine, ExecState, QueuedReq, MultiLegResult}
use upcow.Execution.Process.{
  HedgeLater, start_process, finish_process, set_created, on_order_update, update_known,
  update_exec, noted, delay_of,
}

module _ ⦃fl : Float⦄ where
  open fl use {F}

  -- What happens to the executions: one begins, one has its orders, an order has news.
  pub data Event : Type 0 where
    begins : QueuedReq → Event
    finishes : QueuedReq → MultiLegResult → Event
    updates : Option Order → Event

  abbrev pub step : Event → ExecutionEngine → ExecutionEngine × List HedgeLater
  step (begins q) e = (start_process q e, [])
  step (finishes q r) e = (finish_process q r e, [])
  step (updates o) e = on_order_update o e

  abbrev pub scheduled : String → List HedgeLater → ℕ
  scheduled id [] = 0
  scheduled id (h ∷ hs) = (if eq_text h.exec_id id then 1 else 0) + scheduled id hs

  -- How often the execution `id` is scheduled to be hedged.
  unfoldable pub hedges_of : String → List Event → ExecutionEngine → ℕ
  unfolding start_process finish_process on_order_update
  hedges_of id [] e = 0
  hedges_of id (x ∷ xs) e = let r = step x e in scheduled id r.1 + hedges_of id xs r.0

  abbrev pub BeginsOther : String → Event → Type 0
  BeginsOther id (begins q) = q.id ≢ id
  BeginsOther id (finishes q r) = Unit
  BeginsOther id (updates o) = Unit

  abbrev pub AllBeginOthers : String → List Event → Type 0
  AllBeginOthers id [] = Unit
  AllBeginOthers id (x ∷ xs) = BeginsOther id x × AllBeginOthers id xs

  abbrev has_started : Option ExecState → Bool
  has_started none = false
  has_started (some st) = st.hedge_started

  abbrev IsScheduled : String → Dict ExecState → Type 0
  IsScheduled id m = has_started (lookup id m) ≡ true

  insert-IsScheduled :
      (id k : String) (st : ExecState) (m : Dict ExecState)
      → (k ≡ id → st.hedge_started ≡ true)
      → IsScheduled id m
      → IsScheduled id (insert k st m)
  insert-IsScheduled id k st m h s = rw (lookup-insert id k st m) (decided (String_discrete k id))
    where
      decided : (d : Dec (k ≡ id)) → has_started (ite d (some st) (lookup id m)) ≡ true
      decided (yes e) = h e
      decided (no n) = s

  begins-IsScheduled :
      (id : String) (q : QueuedReq) (e : ExecutionEngine)
      → q.id ≢ id
      → IsScheduled id e.execs
      → IsScheduled id (start_process q e).execs
  unfolding start_process
  begins-IsScheduled id q e n s = insert-IsScheduled id q.id _ e.execs (λ same. absurd (n same)) s

  finishes-IsScheduled :
      (id : String) (q : QueuedReq) (r : MultiLegResult) (e : ExecutionEngine)
      → IsScheduled id e.execs
      → IsScheduled id (finish_process q r e).execs
  unfolding finish_process
  finishes-IsScheduled id q r e s = created (lookup q.id e.execs) refl
    where
      created :
          (found : Option ExecState)
          → lookup q.id e.execs ≡ found
          → IsScheduled id (set_created q.id r.created found e.execs)
      created none f = s
      created (some st) f =
          insert-IsScheduled id q.id (record st { created = r.created }) e.execs
            (λ same. ground (arith, same, f, s)) s

  new-IsScheduled :
      (id k : String) (st : ExecState) (m : Dict ExecState)
      → k ≡ id
      → st.hedge_started ≡ true
      → IsScheduled id (insert k st m)
  new-IsScheduled id k st m same h = rw (lookup-insert id k st m) (decided (String_discrete k id))
    where
      decided : (d : Dec (k ≡ id)) → has_started (ite d (some st) (lookup id m)) ≡ true
      decided (yes e) = h
      decided (no n) = absurd (n same)

  count_of :
      (k id : String) (d : ℤ)
      → Dec (k ≡ id)
      → (scheduled id (record { exec_id = k; delay = d } ∷ []) ≡ 1) × (k ≡ id)
        ⊎ (scheduled id (record { exec_id = k; delay = d } ∷ []) ≡ 0) × (k ≢ id)
  count_of k id d (yes same) = inl (rw (if_pos (String_discrete k id) same) refl, same)
  count_of k id d (no n) = inr (rw (if_neg (String_discrete k id) n) refl, n)

  -- Nothing is scheduled for `id` and it stays scheduled, or it is scheduled for the first time.
  abbrev IsCounted : String → ExecutionEngine → ExecutionEngine × List HedgeLater → Type 0
  IsCounted id e r =
      ((scheduled id r.1 ≡ 0) × (IsScheduled id e.execs → IsScheduled id r.0.execs))
      ⊎ ((scheduled id r.1 ≡ 1)
          × IsScheduled id r.0.execs
          × (has_started (lookup id e.execs) ≡ false))

  exec-IsCounted :
      (id k : String) (o : Order) (st : ExecState) (e : ExecutionEngine)
      → lookup k e.execs ≡ some st
      → IsCounted id e (update_exec o k (some st) e)
  exec-IsCounted id k o st e f = decided st.req.hedge.enabled st.hedge_started refl
    where
      kept : IsCounted id e (record e { execs = insert k (noted o st) e.execs }, [])
      kept = inl (
        refl,
        λ s. insert-IsScheduled id k (noted o st) e.execs (λ same. ground (arith, same, f, s)) s,
      )

      decided :
          (enabled started : Bool)
          → st.hedge_started ≡ started
          → IsCounted id e (
              if◌then◌else◌ {A = ExecutionEngine × List HedgeLater}
                (enabled && not started)
                (
                  record e {
                    execs = insert k (record (noted o st) { hedge_started = true }) e.execs;
                  },
                  record { exec_id = k; delay = delay_of st.req.hedge } ∷ [],
                )
                (record e { execs = insert k (noted o st) e.execs }, []))
      decided true false h = elim (count_of k id (delay_of st.req.hedge) (String_discrete k id)) [
        | inl one ↦ inr (
          one.0,
          new-IsScheduled id k (record (noted o st) { hedge_started = true }) e.execs one.1 refl,
          ground (arith, one.1, f, h),
        )
        | inr none_for_it ↦ inl (
          none_for_it.0,
          λ s.
              insert-IsScheduled id k (record (noted o st) { hedge_started = true }) e.execs
                (λ same. refl) s,
        )
      ]
      decided true true h = kept
      decided false started h = kept

  known-IsCounted :
      (id : String) (o : Order) (k : Option String) (e : ExecutionEngine)
      → IsCounted id e (update_known o k e)
  known-IsCounted id o none e = inl (refl, λ s. s)
  known-IsCounted id o (some k) e = named (is_empty k) (lookup k e.execs) refl
    where
      named :
          (unnamed : Bool) (found : Option ExecState)
          → lookup k e.execs ≡ found
          → IsCounted id e (
              if◌then◌else◌ {A = ExecutionEngine × List HedgeLater} unnamed
                (e, [])
                (update_exec o k found e))
      named true found f = inl (refl, λ s. s)
      named false none f = inl (refl, λ s. s)
      named false (some st) f = exec-IsCounted id k o st e f

  update-IsCounted :
      (id : String) (o : Option Order) (e : ExecutionEngine) → IsCounted id e (on_order_update o e)
  unfolding on_order_update
  update-IsCounted id none e = inl (refl, λ s. s)
  update-IsCounted id (some o) e = named (is_empty o.order_id)
    where
      named :
          (unnamed : Bool)
          → IsCounted id e (
              if◌then◌else◌ {A = ExecutionEngine × List HedgeLater} unnamed
                (e, [])
                (update_known o (lookup o.order_id e.order_to_exec) e))
      named true = inl (refl, λ s. s)
      named false = known-IsCounted id o (lookup o.order_id e.order_to_exec) e

  -- An execution that is scheduled is not scheduled again.
  scheduled-hedges :
      (id : String) (xs : List Event) (e : ExecutionEngine)
      → AllBeginOthers id xs
      → IsScheduled id e.execs
      → hedges_of id xs e ≡ 0
  unfolding hedges_of
  scheduled-hedges id [] e a s = refl
  scheduled-hedges id (begins q ∷ xs) e a s =
      omega
        (arith, scheduled-hedges id xs (start_process q e) a.1 (begins-IsScheduled id q e a.0 s))
  scheduled-hedges id (finishes q r ∷ xs) e a s =
      omega
        (arith, scheduled-hedges id xs (finish_process q r e) a.1 (finishes-IsScheduled id q r e s))
  scheduled-hedges id (updates o ∷ xs) e a s = elim (update-IsCounted id o e) [
    | inl c ↦ omega (arith, c.0, scheduled-hedges id xs (on_order_update o e).0 a.1 (c.1 s))
    | inr c ↦ absurd (ground (arith, c.2, s))
  ]

  -- Whatever comes after, an execution is scheduled to be hedged once at most, by updates of any of
  -- its orders, unless an execution of the same id begins.
  pub hedges_of-le :
      (id : String) (xs : List Event) (e : ExecutionEngine)
      → AllBeginOthers id xs
      → hedges_of id xs e ≤ 1
  unfolding hedges_of
  hedges_of-le id [] e a = omega arith
  hedges_of-le id (begins q ∷ xs) e a = omega (arith, hedges_of-le id xs (start_process q e) a.1)
  hedges_of-le id (finishes q r ∷ xs) e a =
      omega (arith, hedges_of-le id xs (finish_process q r e) a.1)
  hedges_of-le id (updates o ∷ xs) e a =
      let e' : ExecutionEngine = (on_order_update o e).0 in
      elim (update-IsCounted id o e) [
        | inl c ↦ omega (arith, c.0, hedges_of-le id xs e' a.1)
        | inr c ↦ omega (arith, c.0, scheduled-hedges id xs e' a.1 c.1)
      ]
