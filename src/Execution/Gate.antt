-- ===== src/Execution/Gate.antt =====
-- internal/execution/engine.go with inflight.go: what the gate of Submit keeps out.
use upcow.Base.{
  ℕ, String, Bool, true, false, ◌+◌, ◌<◌, if◌then◌else◌, List, Option, some, ◌≡◌, refl, sym, ap,
  ◌∙◌, arith, ltb, length,
}
use upcow.Base.Float.{Float}
use upcow.Domain.Market.{is_empty}
use upcow.InFlight.{InFlightDeduper, try_acquire}
use upcow.InFlight.Exclusion.{Step, apply_all, SpareAll, try_acquire_excludes}
use upcow.Execution.{
  ExecutionEngine, MultiLegRequest, QueuedReq, Printer, accepted, refused, duplicate_in_flight,
  no_market_slug, no_legs, submit, acquired, with_key,
}

module _ ⦃fl : Float⦄ where
  open fl use {F}

  -- A request that was accepted got through the gate.
  acquired-inv :
      (takes : Bool) (q : QueuedReq) (e : ExecutionEngine) (r : Option InFlightDeduper × Bool)
      → (acquired takes q e r).1 ≡ accepted q.id
      → (r.1 ≡ true) × ((acquired takes q e r).0.in_flight ≡ r.0)
  acquired-inv takes q e (d, false) h = absurd (cc)
  acquired-inv takes q e (d, true) h = ground (arith, h)

  -- Where the gate refuses, so does `Submit`.
  acquired-refused :
      (takes : Bool) (q : QueuedReq) (e : ExecutionEngine) (r : Option InFlightDeduper × Bool)
      → r.1 ≡ false
      → (acquired takes q e r).1 ≡ refused duplicate_in_flight
  acquired-refused takes q e (d, false) h = refl
  acquired-refused takes q e (d, true) h = absurd (cc)

  submit-inv :
      (p : Printer) (now : ℕ) (id : String) (takes : Bool) (req : MultiLegRequest)
      (e : ExecutionEngine)
      → (submit p now id takes req e).1 ≡ accepted id
      → ((try_acquire now e.in_flight (with_key p req).in_flight_key).1 ≡ true)
        × ((submit p now id takes req e).0.in_flight
            ≡ (try_acquire now e.in_flight (with_key p req).in_flight_key).0)
  unfolding submit
  submit-inv p now id takes req e h = passed (is_empty req.market_slug) (ltb (length req.legs) 1) h
    where
      q : QueuedReq
      q = record { id = id; req = with_key p req }

      r : Option InFlightDeduper × Bool
      r = try_acquire now e.in_flight (with_key p req).in_flight_key

      passed :
          (a b : Bool)
          → (if a
              then (e, refused no_market_slug)
              else if b
              then (e, refused no_legs)
              else acquired takes q e r).1
            ≡ accepted id
          → (r.1 ≡ true)
            × ((if a
                  then (e, refused no_market_slug)
                  else if b
                  then (e, refused no_legs)
                  else acquired takes q e r).0.in_flight
                ≡ r.0)
      passed true b h = absurd (cc)
      passed false true h = absurd (cc)
      passed false false h = acquired-inv takes q e r h

  -- After Submit accepted a request at `now`, it refuses one under the same key before `now` and
  -- the deduper's time to live have passed, whatever was done to the deduper in between with the
  -- clock before that time, but for a release of the key or a clear. The key is not empty, there is
  -- a shard, and the second request names a market and has a leg.
  pub submit_excludes :
      (p : Printer) (now later : ℕ) (id id' : String) (takes takes' : Bool)
      (req req' : MultiLegRequest) (d : InFlightDeduper) (between : List Step)
      (e e' : ExecutionEngine)
      → e.in_flight ≡ some d
      → is_empty (with_key p req).in_flight_key ≡ false
      → 0 < length d.shards
      → (submit p now id takes req e).1 ≡ accepted id
      → SpareAll (with_key p req).in_flight_key (now + d.ttl) between
      → later < now + d.ttl
      → e'.in_flight ≡ apply_all between (submit p now id takes req e).0.in_flight
      → (with_key p req').in_flight_key ≡ (with_key p req).in_flight_key
      → is_empty req'.market_slug ≡ false
      → ltb (length req'.legs) 1 ≡ false
      → (submit p later id' takes' req' e').1 ≡ refused duplicate_in_flight
  unfolding submit
  submit_excludes p now later id id' takes takes' req req' d between e e' has named some_shard done
        spared soon reached same_key slug legs =
      let key : String = (with_key p req).in_flight_key in
      let got = submit-inv p now id takes req e done in
      let first : (try_acquire now (some d) key).1 ≡ true =
        ap (λ (x : Option InFlightDeduper). (try_acquire now x key).1) (sym has) ∙ got.0 in
      let out = try_acquire_excludes now later d key between named some_shard first spared soon in
      let state : e'.in_flight ≡ apply_all between (try_acquire now (some d) key).0 =
        reached
        ∙ ap (apply_all between)
            (got.1 ∙ ap (λ (x : Option InFlightDeduper). (try_acquire now x key).0) has) in
      let shut : (try_acquire later e'.in_flight (with_key p req').in_flight_key).1 ≡ false =
        ap (λ (k : String). (try_acquire later e'.in_flight k).1) same_key
        ∙ ap (λ (x : Option InFlightDeduper). (try_acquire later x key).1) state
        ∙ out in
      rw (slug, legs)
        (acquired-refused takes' (record { id = id'; req = with_key p req' }) e' _ shut)
