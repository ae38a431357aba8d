-- ===== src/Core/SealedDivergence/Close.antt =====
-- closeSealedBatch of packages/core/src/sealed-divergence.ts on a consistent store.
use deliberum.Prelude.{
  ℕ, ◌+◌, String, ◌≡◌, refl, sym, ap, ◌∙◌, inl, inr, Bool, true, Option, none, some, List, [], ◌∷◌,
  ◌++◌, arith, eq_iff, eq_refl, ◌==◌, if◌then◌else◌, Bool-cases, Option-cases, filter, find, In,
  In-filter_intro, filter-append,
}
use mathlib.Core.Path.{subst}
use deliberum.Errors.{Result, ok, err, ok_injective, sealed_batch_already_closed}
use deliberum.Protocol.Events.{EventEnvelope, AppendEventInput}
use deliberum.Protocol.Host.{Host}
use deliberum.Storage.Idempotency.{to_comparable}
use deliberum.Storage.Memory.{
  InMemoryEventStore, AppendEventResult, append_event_result, find_existing,
  create_idempotency_lookup_key, list_events, get_session_events, in_batch, link_event, store_event,
}
use deliberum.Storage.Memory.Consistent.{IsConsistent}
use deliberum.Storage.Memory.Outcome.{refused, replayed, appended, append-Outcome}
use deliberum.Storage.Memory.Append.{compatible_iff, list_events-store_event}
use deliberum.Core.World.{World, append}
use deliberum.Core.SealedDivergence.{
  CloseSealedBatchInput, BatchState, sealed_batch_opened, sealed_batch_revealed,
  get_open_batch_state, state_of_events, close_sealed_batch, reveal_input,
}
use deliberum.Core.SealedDivergence.Effect.{threw, wrote, Closes, close-Effect}
use deliberum.Core.SealedDivergence.Reveal.{MayReveal, assert_reveal_policy_iff}
use deliberum.Core.SealedDivergence.History.{find-append_left, closed_read, store-append}
use deliberum.Core.SealedDivergence.Unique.{find-none}

find-append_right {ℓ} :
    {A : Type ℓ} (p : A → Bool) (xs ys : List A) → find p xs ≡ none → find p (xs ++ ys) ≡ find p ys
unfolding find
find-append_right p [] ys e = refl
find-append_right p (x ∷ xs) ys e = elim (Bool-cases (p x)) [
  | inl q ↦ cc (rw q at e)
  | inr q ↦ rw q (find-append_right p xs ys (rw q at e))
]

-- An open batch has no reveal event.
open_unrevealed :
    (h : Host) (bid : String) (xs : List EventEnvelope) (state : BatchState)
    → state_of_events h bid xs ≡ ok state
    → find (λ x. x.type == sealed_batch_revealed) xs ≡ none
unfolding state_of_events
open_unrevealed h bid xs state e = ground arith

-- A reveal event at the end closes an open batch.
state-append_reveal :
    (h : Host) (bid : String) (xs : List EventEnvelope) (e : EventEnvelope) (state : BatchState)
    → state_of_events h bid xs ≡ ok state
    → (e.type == sealed_batch_revealed) ≡ true
    → state_of_events h bid (xs ++ e ∷ []) ≡ err (sealed_batch_already_closed bid)
unfolding state_of_events
state-append_reveal h bid xs e state p q =
    elim (Option-cases (find (λ x. x.type == sealed_batch_opened) xs)) [
      | inl n ↦ absurd (ground (arith, n))
      | inr o ↦ ground (
        arith,
        o.1,
        find-append_left (λ x. x.type == sealed_batch_opened) xs (e ∷ []) o.0 o.1,
        find-append_right (λ x. x.type == sealed_batch_revealed) xs (e ∷ [])
            (open_unrevealed h bid xs state p),
        find_only e q,
      )
    ]
  where
    find_only :
        (x : EventEnvelope)
        → (x.type == sealed_batch_revealed) ≡ true
        → find (λ y. y.type == sealed_batch_revealed) (x ∷ []) ≡ some x
    find_only x t = unfold find in rw t

comparable-type : (a b : AppendEventInput) → to_comparable a ≡ to_comparable b → a.type ≡ b.type
unfolding to_comparable
comparable-type a b p = ap (λ (z : AppendEventInput). z.type) p

comparable-session :
    (a b : AppendEventInput) → to_comparable a ≡ to_comparable b → a.session_id ≡ b.session_id
unfolding to_comparable
comparable-session a b p = ap (λ (z : AppendEventInput). z.session_id) p

kept_batch : AppendEventInput → Option String
kept_batch a = if a.type == sealed_batch_opened then none else a.batch_id

comparable-batch :
    (a b : AppendEventInput) → to_comparable a ≡ to_comparable b → kept_batch a ≡ kept_batch b
unfolding to_comparable kept_batch
comparable-batch a b p = ap (λ (z : AppendEventInput). z.batch_id) p

kept_revealed : (a : AppendEventInput) → a.type ≡ sealed_batch_revealed → kept_batch a ≡ a.batch_id
unfolding kept_batch
kept_revealed a p = rw p

find_existing-none : (s : InMemoryEventStore) → find_existing s none ≡ none
unfolding find_existing
find_existing-none s = refl

found_key :
    (s : InMemoryEventStore) (key : Option String) (y : EventEnvelope)
    → find_existing s key ≡ some y
    → (k : String) × (find_existing s (some k) ≡ some y)
found_key s none y e = cc (e, find_existing-none s)
found_key s (some k) y e = (k, e)

in_batch_intro : (bid : String) (e : EventEnvelope) → e.batch_id ≡ some bid → in_batch bid e ≡ true
unfolding in_batch
in_batch_intro bid e p = ground (arith, p, eq_refl bid)

filter_single :
    (p : EventEnvelope → Bool) (e : EventEnvelope) → p e ≡ true → filter p (e ∷ []) ≡ e ∷ []
unfolding filter
filter_single p e q = rw q

module _ (h : Host) (input : CloseSealedBatchInput) (w : World) where
  abbrev sid : String
  sid = input.session_id

  abbrev bid : String
  bid = input.batch_id

  abbrev batch_events : List EventEnvelope
  batch_events = filter (in_batch bid) (list_events w.store sid)

  unrevealed :
      (x : AppendEventInput)
      → Closes h input w x
      → find (λ y. y.type == sealed_batch_revealed) batch_events ≡ none
  unrevealed x c =
      open_unrevealed h bid batch_events c.state
        (sym (closed_read h w.store sid bid) ∙ c.open_batch)

  reveal_type : (x : AppendEventInput) → Closes h input w x → x.type ≡ sealed_batch_revealed
  unfolding reveal_input
  reveal_type x c = ap (λ (z : AppendEventInput). z.type) c.written

  reveal_session : (x : AppendEventInput) → Closes h input w x → x.session_id ≡ sid
  unfolding reveal_input
  reveal_session x c = ap (λ (z : AppendEventInput). z.session_id) c.written

  reveal_batch : (x : AppendEventInput) → Closes h input w x → x.batch_id ≡ some bid
  unfolding reveal_input
  reveal_batch x c = ap (λ (z : AppendEventInput). z.batch_id) c.written

  -- The reveal of an open batch is no repetition of a stored event.
  not_replayed :
      (x : AppendEventInput) (y : EventEnvelope)
      → IsConsistent h.digest w.store
      → Closes h input w x
      → find_existing w.store (create_idempotency_lookup_key x) ≡ some y
      → to_comparable y.input ≡ to_comparable x
      → ⊥
  unfolding list_events
  not_replayed x y consistent c found alike =
      let t = comparable-type y.input x alike ∙ reveal_type x c in
      let s = comparable-session y.input x alike ∙ reveal_session x c in
      let b : y.batch_id ≡ some bid =
        sym (kept_revealed y.input t)
        ∙ (comparable-batch y.input x alike
            ∙ (kept_revealed x (reveal_type x c) ∙ reveal_batch x c)) in
      let (k, key) = found_key w.store (create_idempotency_lookup_key x) y found in
      let listed =
        subst (λ z. In y (get_session_events w.store z)) s (consistent.known k y key).1 in
      let m =
        In-filter_intro (in_batch bid) y (get_session_events w.store sid) listed
          (in_batch_intro bid y b) in
      let other =
        find-none (λ z. z.type == sealed_batch_revealed) batch_events y (unrevealed x c) m in
      cc (other, (eq_iff y.type sealed_batch_revealed).1 t)

  abbrev after_store : AppendEventInput → InMemoryEventStore
  after_store x =
      store_event (create_idempotency_lookup_key x) (link_event h x w.store)
        (record w.store { clock_reads = w.store.clock_reads + 1 })

  link_type : (x : AppendEventInput) → (link_event h x w.store).type ≡ x.type
  unfolding link_event
  link_type x = refl

  link_batch : (x : AppendEventInput) → (link_event h x w.store).batch_id ≡ x.batch_id
  unfolding link_event
  link_batch x = refl

  closed_after :
      (x : AppendEventInput)
      → Closes h input w x
      → get_open_batch_state h (after_store x) sid bid ≡ err (sealed_batch_already_closed bid)
  closed_after x c =
      let e = link_event h x w.store in
      let events : filter (in_batch bid) (list_events (after_store x) sid)
          ≡ batch_events ++ e ∷ [] =
        rw
          (
            list_events-store_event h x w.store sid,
            (eq_iff x.session_id sid).1 (reveal_session x c),
            filter-append (in_batch bid) (list_events w.store sid) (link_event h x w.store ∷ []),
            filter_single (in_batch bid) (link_event h x w.store)
                (in_batch_intro bid (link_event h x w.store) (link_batch x ∙ reveal_batch x c)),
          )
          refl in
      closed_read h (after_store x) sid bid
      ∙ (ap (state_of_events h bid) events
          ∙ state-append_reveal h bid batch_events e c.state
              (sym (closed_read h w.store sid bid) ∙ c.open_batch)
              ((eq_iff e.type sealed_batch_revealed).1 (link_type x ∙ reveal_type x c)))

  reveal_stored :
      (x : AppendEventInput) (r : AppendEventResult)
      → IsConsistent h.digest w.store
      → Closes h input w x
      → (append_event_result h x w.store).0 ≡ ok r
      → (r.appended ≡ true) × ((append_event_result h x w.store).1 ≡ after_store x)
  reveal_stored x r consistent c done = elim (append-Outcome h x w.store) [
    | refused e n out ↦ cc (ap (λ (o : Result AppendEventResult × InMemoryEventStore). o.0) out)
    | replayed y found fits out ↦
        absurd (not_replayed x y consistent c found ((compatible_iff y.input x).0 fits))
    | appended free fresh fine out ↦ (
      ap (λ (z : AppendEventResult). z.appended)
          (ok_injective r (record { event = link_event h x w.store; appended = true })
            (sym done ∙ ap (λ (o : Result AppendEventResult × InMemoryEventStore). o.0) out)),
      ap (λ (o : Result AppendEventResult × InMemoryEventStore). o.1) out,
    )
  ]

store-result :
    (h : Host) (x : AppendEventInput) (w : World) (i n : ℕ)
    → (append h x (record w { id_calls = i; clock_calls = n })).0
      ≡ (append_event_result h x w.store).0
unfolding append
store-result h x w i n = refl

-- A close that returns has stored a reveal: the batch was open, its policy allowed the reveal, and it
-- is closed from then on.
pub close_reveals :
    (h : Host) (input : CloseSealedBatchInput) (w : World) (r : AppendEventResult)
    → IsConsistent h.digest w.store
    → (close_sealed_batch h input w).0 ≡ ok r
    → (state : BatchState) × (get_open_batch_state h w.store input.session_id input.batch_id
        ≡ ok state)
      × MayReveal h state.opened_batch.reveal_policy state.opened_batch state.contribution_events
          (h.clock w.clock_calls)
      × (r.appended ≡ true)
      × (get_open_batch_state h
            (close_sealed_batch h input w).1.store
            input.session_id
            input.batch_id
          ≡ err (sealed_batch_already_closed input.batch_id))
close_reveals h input w r consistent done = elim (close-Effect h input w) [
  | threw e i n out ↦ cc (ap (λ (o : Result AppendEventResult × World). o.0) out)
  | wrote x i n c out ↦
      let (f, g) = reveal_stored h input w x r consistent c (
        sym (store-result h x w i n)
        ∙ (sym (ap (λ (o : Result AppendEventResult × World). o.0) out) ∙ done)) in
      (
        c.state,
        c.open_batch,
        (assert_reveal_policy_iff h c.state.opened_batch c.state.contribution_events
              (h.clock w.clock_calls)).0
            c.may_close,
        f,
        rw (out, store-append h x (record w { id_calls = i; clock_calls = n }), g)
            (closed_after h input w x c),
      )
]
