-- ===== src/Core/SealedDivergence/Contributions.antt =====
-- The contributions that a batch holds, and what one append does to them.
use deliberum.Prelude.{
  ℕ, ◌+◌, String, ◌≡◌, refl, sym, ◌∙◌, inl, inr, Bool, true, false, ◌&&◌, none, List, [], ◌∷◌, ◌++◌,
  arith, eq_iff, ◌==◌, if◌then◌else◌, Bool-cases, filter, filter-append,
}
use mathlib.Core.List.{append-nil}
use deliberum.Protocol.Events.{EventEnvelope, AppendEventInput}
use deliberum.Protocol.Host.{Host}
use deliberum.Storage.Memory.{
  InMemoryEventStore, store_event, link_event, create_idempotency_lookup_key, find_existing,
  append_event_result, list_events, list_events_by_batch, in_batch,
}
use deliberum.Storage.Memory.Outcome.{refused, replayed, appended, append-Outcome}
use deliberum.Storage.Memory.Append.{list_events-store_event}
use deliberum.Core.SealedDivergence.{is_contribution}

unfoldable pub contributions : InMemoryEventStore → String → String → List EventEnvelope
unfolding filter is_contribution list_events_by_batch
contributions s sid bid = filter is_contribution (list_events_by_batch s sid bid)

pub by_batch_lem :
    (s : InMemoryEventStore) (sid bid : String)
    → list_events_by_batch s sid bid ≡ filter (in_batch bid) (list_events s sid)
unfolding list_events_by_batch list_events
by_batch_lem s sid bid = refl

-- One more event at the end of its session.
abbrev pub Added : InMemoryEventStore → InMemoryEventStore → EventEnvelope → Type 0
Added s t e =
    (sid : String)
    → list_events t sid
      ≡ (if e.session_id == sid then list_events s sid ++ e ∷ [] else list_events s sid)

filter_one :
    (p : EventEnvelope → Bool) (e : EventEnvelope)
    → filter p (e ∷ []) ≡ (if p e then e ∷ [] else [])
unfolding filter
filter_one p e = refl

append_if :
    (b : Bool) (xs : List EventEnvelope) (e : EventEnvelope)
    → xs ++ (if b then e ∷ [] else []) ≡ (if b then xs ++ e ∷ [] else xs)
append_if true xs e = refl
append_if false xs e = append-nil xs

both_false :
    {A : Type 0} (a b c : Bool) (x y : A) → (a && b) ≡ false → x ≡ (if a && (b && c) then y else x)
both_false true true c x y q = cc
both_false true false c x y q = refl
both_false false b c x y q = refl

both_true :
    {A : Type 0} (a b c : Bool) (x y : A)
    → (a && b) ≡ true
    → (if c then y else x) ≡ (if a && (b && c) then y else x)
both_true true true c x y q = refl
both_true true false c x y q = cc
both_true false b c x y q = cc

module _ (s t : InMemoryEventStore) (e : EventEnvelope) (added : Added s t e)
    (sid bid : String) where
  by_batch-Added : list_events_by_batch t sid bid ≡ (
      if (e.session_id == sid) && in_batch bid e
      then list_events_by_batch s sid bid ++ e ∷ []
      else list_events_by_batch s sid bid)
  by_batch-Added = elim (Bool-cases (e.session_id == sid)) [
    | inr q ↦ rw (by_batch_lem t sid bid, by_batch_lem s sid bid, added sid, q)
    | inl q ↦
        rw
          (
            by_batch_lem t sid bid,
            by_batch_lem s sid bid,
            added sid,
            q,
            filter-append (in_batch bid) (list_events s sid) (e ∷ []),
            filter_one (in_batch bid) e,
          )
          (append_if (in_batch bid e) (filter (in_batch bid) (list_events s sid)) e)
  ]

  contributions-Added : contributions t sid bid ≡ (
      if (e.session_id == sid) && (in_batch bid e && is_contribution e)
      then contributions s sid bid ++ e ∷ []
      else contributions s sid bid)
  unfolding contributions
  contributions-Added = elim (Bool-cases ((e.session_id == sid) && in_batch bid e)) [
    | inr q ↦
        rw (by_batch-Added, q)
          (both_false (e.session_id == sid) (in_batch bid e) (is_contribution e) _ _ q)
    | inl q ↦
        rw
          (
            by_batch-Added,
            q,
            filter-append is_contribution (list_events_by_batch s sid bid) (e ∷ []),
            filter_one is_contribution e,
          )
          (append_if (is_contribution e) (contributions s sid bid) e
            ∙ both_true (e.session_id == sid) (in_batch bid e) (is_contribution e) _ _ q)
  ]

-- What an append hands to one batch: nothing, or one event at its end.
pub data BatchChange (h : Host) (x : AppendEventInput) (s t : InMemoryEventStore) (sid bid : String)
    : Type 0 where
  unchanged : contributions t sid bid ≡ contributions s sid bid → BatchChange h x s t sid bid
  contributed :
      contributions t sid bid ≡ contributions s sid bid ++ link_event h x s ∷ []
      → x.session_id ≡ sid
      → in_batch bid (link_event h x s) ≡ true
      → is_contribution (link_event h x s) ≡ true
      → find_existing s (create_idempotency_lookup_key x) ≡ none
      → BatchChange h x s t sid bid

module _ (h : Host) (x : AppendEventInput) (s : InMemoryEventStore) (sid bid : String) where
  stored : InMemoryEventStore
  stored =
      store_event (create_idempotency_lookup_key x) (link_event h x s)
        (record s { clock_reads = s.clock_reads + 1 })

  Added-stored : Added s stored (link_event h x s)
  unfolding stored link_event
  Added-stored = list_events-store_event h x s

  session-link_event : (link_event h x s).session_id ≡ x.session_id
  unfolding link_event
  session-link_event = refl

  change_stored :
      find_existing s (create_idempotency_lookup_key x) ≡ none → BatchChange h x s stored sid bid
  change_stored free =
      elim (Bool-cases (
        ((link_event h x s).session_id == sid)
        && (in_batch bid (link_event h x s) && is_contribution (link_event h x s)))) [
          | inr q ↦
              unchanged
                (rw (contributions-Added s stored (link_event h x s) Added-stored sid bid, q))
          | inl q ↦
              contributed
                (rw (contributions-Added s stored (link_event h x s) Added-stored sid bid, q))
                (sym session-link_event
                  ∙ (eq_iff (link_event h x s).session_id sid).0 (ground (arith, q)))
                (ground (arith, q)) (ground (arith, q)) free
        ]

  contributions-clock :
      (n : ℕ) → contributions (record s { clock_reads = n }) sid bid ≡ contributions s sid bid
  unfolding contributions
  contributions-clock n = refl

  pub append_change : BatchChange h x s (append_event_result h x s).1 sid bid
  unfolding stored
  append_change = elim (append-Outcome h x s) [
    | refused e n out ↦ rw out (unchanged (contributions-clock n))
    | replayed y found same out ↦ rw out (unchanged refl)
    | appended free fresh fine out ↦ rw out (change_stored free)
  ]
