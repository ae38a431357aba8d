-- ===== src/Core/SealedDivergence/History.antt =====
-- Histories: any sequence of operations on sealed batches, and of appends by other components.
use deliberum.Prelude.{
  ℕ, String, ◌≡◌, refl, sym, ap, ◌∙◌, inl, inr, Bool, true, false, ◌&&◌, none, some, List, [], ◌∷◌,
  ◌++◌, arith, eq_iff, ◌==◌, if◌then◌else◌, Bool-cases, Option-cases, filter, find, filter-append,
}
use mathlib.Core.List.{append-nil}
use mathlib.Core.Path.{subst₂}
use deliberum.Errors.{Result, ok, err, Result-cases, sealed_batch_already_closed}
use deliberum.Protocol.Events.{EventEnvelope, AppendEventInput}
use deliberum.Protocol.Host.{Host}
use deliberum.Storage.Memory.{
  InMemoryEventStore, AppendEventResult, append_event_result, find_existing,
  create_idempotency_lookup_key, list_events, in_batch, link_event,
}
use deliberum.Storage.Memory.Append.{list_events-append_event_result, append_event_result_error}
use deliberum.Core.World.{World, append}
use deliberum.Core.SealedDivergence.{
  OpenSealedBatchInput, SubmitSealedContributionInput, CloseSealedBatchInput, sealed_batch_opened,
  sealed_batch_revealed, sealed_contribution_submitted, get_open_batch_state, state_of_events,
  is_contribution, is_timestamp, safe_parse_sealed_batch, open_sealed_batch,
  submit_sealed_contribution, close_sealed_batch, contribution_input, opened_input, reveal_input,
}
use deliberum.Core.SealedDivergence.Effect.{
  Effect, threw, wrote, Submits, Closes, Opens, submit-Effect, close-Effect, open-Effect,
}
use deliberum.Core.SealedDivergence.Contributions.{
  contributions, by_batch_lem, unchanged, contributed, append_change,
}

-- One step of the system. Any other component may append events of other types.
pub data Step (h : Host) (w : World) : World → Type 0 where
  opens : (input : OpenSealedBatchInput) → Step h w (open_sealed_batch h input w).1
  submits :
      (input : SubmitSealedContributionInput) → Step h w (submit_sealed_contribution h input w).1
  closes : (input : CloseSealedBatchInput) → Step h w (close_sealed_batch h input w).1
  appends :
      (x : AppendEventInput) (i c : ℕ)
      → (x.type == sealed_contribution_submitted) ≡ false
      → Step h w (append h x (record w { id_calls = i; clock_calls = c })).1

pub data Reach (h : Host) (w : World) : World → Type 0 where
  here : Reach h w w
  next : {u v : World} → Reach h w u → Step h u v → Reach h w v

-- A step is an append to the store, or leaves the store alone.
pub data StoreChange (h : Host) (s t : InMemoryEventStore) : Type 0 where
  kept : t ≡ s → StoreChange h s t
  added : (x : AppendEventInput) → t ≡ (append_event_result h x s).1 → StoreChange h s t

pub store-append :
    (h : Host) (x : AppendEventInput) (w : World)
    → (append h x w).1.store ≡ (append_event_result h x w.store).1
unfolding append
store-append h x w = refl

Effect-change :
    (h : Host) (w : World) (P : AppendEventInput → Type 0) (out : Result AppendEventResult × World)
    → Effect h w P out
    → StoreChange h w.store out.1.store
Effect-change h w P out (threw e i c p) =
    kept (ap (λ (o : Result AppendEventResult × World). o.1.store) p)
Effect-change h w P out (wrote x i c px p) = added x (
    ap (λ (o : Result AppendEventResult × World). o.1.store) p
    ∙ store-append h x (record w { id_calls = i; clock_calls = c }))

pub Step-change : {h : Host} {w v : World} → Step h w v → StoreChange h w.store v.store
Step-change {h} {w} (opens input) = Effect-change h w (Opens h input w) _ (open-Effect h input w)
Step-change {h} {w} (submits input) =
    Effect-change h w (Submits h input w) _ (submit-Effect h input w)
Step-change {h} {w} (closes input) = Effect-change h w (Closes h input w) _ (close-Effect h input w)
Step-change {h} {w} (appends x i c p) =
    added x (store-append h x (record w { id_calls = i; clock_calls = c }))

-- Every session only grows at its end.
abbrev pub Grows : InMemoryEventStore → InMemoryEventStore → Type 0
Grows s t =
    (sid : String) → (ys : List EventEnvelope) × (list_events t sid ≡ list_events s sid ++ ys)

list_events-clock :
    (s : InMemoryEventStore) (n : ℕ) (sid : String)
    → list_events (record s { clock_reads = n }) sid ≡ list_events s sid
unfolding list_events
list_events-clock s n sid = refl

append-Grows :
    (h : Host) (x : AppendEventInput) (s : InMemoryEventStore)
    → Grows s (append_event_result h x s).1
append-Grows h x s sid = elim (Result-cases (append_event_result h x s).0) [
  | inr e ↦ (
    [],
    rw (append_event_result_error h x s e.0 e.1) (list_events-clock s _ sid ∙ sym (append-nil _)),
  )
  | inl r ↦ ends r.0 (list_events-append_event_result h x s r.0 sid r.1)
]
  where
    ends :
        (r : AppendEventResult)
        → list_events (append_event_result h x s).1 sid ≡ (
            if r.appended && x.session_id == sid
            then list_events s sid ++ r.event ∷ []
            else list_events s sid)
        → (ys : List EventEnvelope) × (list_events (append_event_result h x s).1 sid
            ≡ list_events s sid ++ ys)
    ends r p = elim (Bool-cases (r.appended && x.session_id == sid)) [
      | inl q ↦ (r.event ∷ [], p ∙ (rw q))
      | inr q ↦ ([], p ∙ (rw q (sym (append-nil _))))
    ]

change-Grows : (h : Host) (s t : InMemoryEventStore) → StoreChange h s t → Grows s t
change-Grows h s t (kept p) sid = ([], rw p (sym (append-nil _)))
change-Grows h s t (added x p) sid = let g = append-Grows h x s sid in (g.0, rw p g.1)

pub find-append_left {ℓ} :
    {A : Type ℓ} (p : A → Bool) (xs ys : List A) (a : A)
    → find p xs ≡ some a
    → find p (xs ++ ys) ≡ some a
unfolding find
find-append_left p [] ys a e = cc
find-append_left p (x ∷ xs) ys a e = elim (Bool-cases (p x)) [
  | inl q ↦ rw q (rw q at e)
  | inr q ↦ rw q (find-append_left p xs ys a (rw q at e))
]

-- A closed batch stays closed whatever is appended.
closed-append :
    (h : Host) (bid : String) (xs ys : List EventEnvelope)
    → state_of_events h bid xs ≡ err (sealed_batch_already_closed bid)
    → state_of_events h bid (xs ++ ys) ≡ err (sealed_batch_already_closed bid)
unfolding state_of_events
closed-append h bid xs ys e = elim (Option-cases (find (λ x. x.type == sealed_batch_opened) xs)) [
  | inl n ↦ absurd (ground (arith, n))
  | inr o ↦ elim (Option-cases (safe_parse_sealed_batch (is_timestamp h) o.0.payload)) [
    | inl n ↦ absurd (ground (arith, n, o.1))
    | inr b ↦ elim (Option-cases (find (λ x. x.type == sealed_batch_revealed) xs)) [
      | inl n ↦ absurd (ground (arith, n, o.1, b.1))
      | inr r ↦ ground (
        arith,
        find-append_left (λ x. x.type == sealed_batch_opened) xs ys o.0 o.1,
        b.1,
        find-append_left (λ x. x.type == sealed_batch_revealed) xs ys r.0 r.1,
      )
    ]
  ]
]

pub closed_read :
    (h : Host) (s : InMemoryEventStore) (sid bid : String)
    → get_open_batch_state h s sid bid
      ≡ state_of_events h bid (filter (in_batch bid) (list_events s sid))
unfolding get_open_batch_state
closed_read h s sid bid = ap (state_of_events h bid) (by_batch_lem s sid bid)

pub closed-Grows :
    (h : Host) (s t : InMemoryEventStore) (sid bid : String)
    → Grows s t
    → get_open_batch_state h s sid bid ≡ err (sealed_batch_already_closed bid)
    → get_open_batch_state h t sid bid ≡ err (sealed_batch_already_closed bid)
closed-Grows h s t sid bid g e =
    let ys = g sid in
    rw (closed_read h t sid bid, ys.1, filter-append (in_batch bid) (list_events s sid) ys.0)
      (closed-append h bid _ _ (sym (closed_read h s sid bid) ∙ e))

-- The event that an append stores has the type of its input, and its batch.
contribution-type :
    (h : Host) (x : AppendEventInput) (s : InMemoryEventStore)
    → is_contribution (link_event h x s) ≡ true
    → (x.type == sealed_contribution_submitted) ≡ true
unfolding is_contribution link_event
contribution-type h x s e = ground arith

in_batch-link_event :
    (h : Host) (x : AppendEventInput) (s : InMemoryEventStore) (bid b : String)
    → x.batch_id ≡ some b
    → in_batch bid (link_event h x s) ≡ true
    → b ≡ bid
unfolding in_batch link_event
in_batch-link_event h x s bid b p e = (eq_iff b bid).0 (ground (arith, p))

-- What a step does to the contributions of one batch.
pub data Contributes (h : Host) (w v : World) (sid bid : String) : Type 0 where
  same : contributions v.store sid bid ≡ contributions w.store sid bid → Contributes h w v sid bid
  more :
      (input : SubmitSealedContributionInput) (x : AppendEventInput)
      → Submits h input w x
      → input.session_id ≡ sid
      → input.batch_id ≡ bid
      → find_existing w.store (create_idempotency_lookup_key x) ≡ none
      → contributions v.store sid bid ≡ contributions w.store sid bid ++ link_event h x w.store ∷ []
      → Contributes h w v sid bid

module _ (h : Host) (w : World) (sid bid : String) where
  other_type :
      (v : World) (x : AppendEventInput)
      → v.store ≡ (append_event_result h x w.store).1
      → (x.type == sealed_contribution_submitted) ≡ false
      → Contributes h w v sid bid
  other_type v x p t = elim (append_change h x w.store sid bid) [
    | unchanged e ↦ same (rw p e)
    | contributed e a b c f ↦ cc (t, contribution-type h x w.store c)
  ]

  submitted :
      (v : World) (input : SubmitSealedContributionInput) (x : AppendEventInput)
      → v.store ≡ (append_event_result h x w.store).1
      → Submits h input w x
      → Contributes h w v sid bid
  unfolding contribution_input
  submitted v input x p su = elim (append_change h x w.store sid bid) [
    | unchanged e ↦ same (rw p e)
    | contributed e a b c f ↦
        more input x su (sym (ap (λ (y : AppendEventInput). y.session_id) su.written) ∙ a)
          (in_batch-link_event h x w.store bid input.batch_id
            (ap (λ (y : AppendEventInput). y.batch_id) su.written) b)
          f (rw p e)
  ]

  Effect-Contributes :
      (P : AppendEventInput → Type 0) (out : Result AppendEventResult × World)
      → ((x : AppendEventInput)
          → P x
          → out.1.store ≡ (append_event_result h x w.store).1
          → Contributes h w out.1 sid bid)
      → Effect h w P out
      → Contributes h w out.1 sid bid
  Effect-Contributes P out k (threw e i c p) =
      same (ap (λ (o : Result AppendEventResult × World). contributions o.1.store sid bid) p)
  Effect-Contributes P out k (wrote x i c px p) = k x px (
      ap (λ (o : Result AppendEventResult × World). o.1.store) p
      ∙ store-append h x (record w { id_calls = i; clock_calls = c }))

  pub Step-Contributes : (v : World) → Step h w v → Contributes h w v sid bid
  unfolding opened_input reveal_input
  Step-Contributes v (opens input) =
      Effect-Contributes (Opens h input w) _
        (λ x o p.
          other_type _ x p
            (ap (λ (y : AppendEventInput). y.type == sealed_contribution_submitted) o.written))
        (open-Effect h input w)
  Step-Contributes v (closes input) =
      Effect-Contributes (Closes h input w) _
        (λ x o p.
          other_type _ x p
            (ap (λ (y : AppendEventInput). y.type == sealed_contribution_submitted) o.written))
        (close-Effect h input w)
  Step-Contributes v (submits input) =
      Effect-Contributes (Submits h input w) _ (λ x o p. submitted _ input x p o)
        (submit-Effect h input w)
  Step-Contributes v (appends x i c t) =
      other_type _ x (store-append h x (record w { id_calls = i; clock_calls = c })) t

-- A step leaves a closed batch closed, with the contributions that it had.
Step-closed :
    (h : Host) (w v : World) (sid bid : String)
    → Step h w v
    → get_open_batch_state h w.store sid bid ≡ err (sealed_batch_already_closed bid)
    → contributions v.store sid bid ≡ contributions w.store sid bid
Step-closed h w v sid bid st e = elim (Step-Contributes h w sid bid v st) [
  | same p ↦ p
  | more input x su a b f p ↦
      let still : get_open_batch_state h w.store sid bid ≡ ok su.state =
        subst₂ (λ y z. get_open_batch_state h w.store y z ≡ ok su.state) a b su.open_batch in
      cc (e, still)
]

-- Once a batch is revealed it stays closed, and no contribution is added to it, whatever happens.
pub closed_forever :
    (h : Host) (w v : World) (sid bid : String)
    → Reach h w v
    → get_open_batch_state h w.store sid bid ≡ err (sealed_batch_already_closed bid)
    → (get_open_batch_state h v.store sid bid ≡ err (sealed_batch_already_closed bid))
      × (contributions v.store sid bid ≡ contributions w.store sid bid)
closed_forever h w v sid bid here e = (e, refl)
closed_forever h w v sid bid (next {u} r st) e =
    let (c, p) = closed_forever h w u sid bid r e in
    (
      closed-Grows h u.store v.store sid bid (change-Grows h u.store v.store (Step-change st)) c,
      Step-closed h u v sid bid st c ∙ p,
    )
