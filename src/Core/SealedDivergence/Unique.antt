-- ===== src/Core/SealedDivergence/Unique.antt =====
-- The authors of the contributions to a batch (packages/core/src/sealed-divergence.ts).
use deliberum.Prelude.{
  ℕ, suc, String, ◌+++◌, ◌≡◌, refl, sym, ap, ◌∙◌, inl, inr, Bool, true, false, Option, none, some,
  List, [], ◌∷◌, arith, eq_iff, ◌==◌, Option-cases, get, get_or, filter, find, In, In-filter,
  Distinct, Distinct-append_one,
}
use mathlib.Core.List.{map-append}
use mathlib.Core.Path.{subst, subst₂}
use deliberum.Prelude.{In-find}
use deliberum.Errors.{ok}
use deliberum.Protocol.Events.{EventEnvelope, AppendEventInput}
use deliberum.Protocol.Host.{Host}
use deliberum.Storage.Memory.{
  InMemoryEventStore, find_existing, create_idempotency_lookup_key, list_events, get_session_events,
  list_events_by_batch, in_batch, link_event,
}
use deliberum.Storage.Memory.Consistent.{Numbered, IsConsistent, IsConsistent-empty}
use deliberum.Storage.Memory.Preserve.{append_event_result-IsConsistent}
use deliberum.Core.World.{World, start}
use deliberum.Core.SealedDivergence.{
  SubmitSealedContributionInput, BatchState, get_open_batch_state, state_of_events, is_contribution,
  no_duplicate_contribution, repeats_key, contribution_input,
}
use deliberum.Core.SealedDivergence.Effect.{Submits}
use deliberum.Core.SealedDivergence.Reveal.{authors}
use deliberum.Core.SealedDivergence.Contributions.{contributions, by_batch_lem}
use deliberum.Core.SealedDivergence.History.{
  Step, Reach, here, next, StoreChange, kept, added, Step-change, same, more, Step-Contributes,
}

pub find-none {ℓ} :
    {A : Type ℓ} (p : A → Bool) (xs : List A) (y : A) → find p xs ≡ none → In y xs → p y ≡ false
unfolding find
find-none p [] y e m = elim m [ ]
find-none p (x ∷ xs) y e (inl q) = rw q (ground arith)
find-none p (x ∷ xs) y e (inr m) = find-none p xs y (ground arith) m

In-authors :
    (a : String) (xs : List EventEnvelope)
    → In a (authors xs)
    → (y : EventEnvelope) × In y xs × (y.author_id ≡ a)
In-authors a [] m = elim m [ ]
In-authors a (x ∷ xs) (inl e) = (x, inl refl, sym e)
In-authors a (x ∷ xs) (inr m) = let (y, k, q) = In-authors a xs m in (y, inr k, q)

Numbered-session :
    (sid : String) (n : ℕ) (es : List EventEnvelope) (e : EventEnvelope)
    → Numbered sid n es
    → In e es
    → e.session_id ≡ sid
Numbered-session sid n [] e h m = elim m [ ]
Numbered-session sid n (x ∷ es) e h (inl q) = ap (λ (y : EventEnvelope). y.session_id) q ∙ h.1
Numbered-session sid n (x ∷ es) e h (inr m) = Numbered-session sid (suc n) es e h.2 m

In-contributions :
    (s : InMemoryEventStore) (sid bid : String) (e : EventEnvelope)
    → In e (contributions s sid bid)
    → In e (get_session_events s sid)
unfolding contributions list_events
In-contributions s sid bid e m =
    (In-filter (in_batch bid) e (get_session_events s sid) (
      rw (by_batch_lem s sid bid) at
        (In-filter is_contribution e (list_events_by_batch s sid bid) m).0)).0

-- The state that is read holds the batch's contributions.
pub state_contributions :
    (h : Host) (s : InMemoryEventStore) (sid bid : String) (state : BatchState)
    → get_open_batch_state h s sid bid ≡ ok state
    → state.contribution_events ≡ contributions s sid bid
unfolding get_open_batch_state state_of_events contributions
state_contributions h s sid bid state e = ground arith

lookup_key :
    (x : AppendEventInput) (k : String)
    → x.idempotency_key ≡ some k
    → (k == "") ≡ false
    → create_idempotency_lookup_key x ≡ some (x.session_id +++ (":" +++ k))
unfolding create_idempotency_lookup_key
lookup_key x k p q = ground (arith, q)

repeats_parts :
    (a b : Option String)
    → repeats_key a b ≡ true
    → (k : String) × (a ≡ some k) × (b ≡ some k) × ((k == "") ≡ false)
unfolding repeats_key
repeats_parts none b e = cc
repeats_parts (some k) none e = cc
repeats_parts (some k) (some j) e =
    (k, refl, ap {B = Option String} some ((eq_iff j k).0 (ground arith)), ground arith)

repeat_found :
    (es : List EventEnvelope) (author : String) (key : Option String)
    → no_duplicate_contribution es author key ≡ true
    → In author (authors es)
    → (y : EventEnvelope) × In y es × (repeats_key key y.idempotency_key ≡ true)
unfolding no_duplicate_contribution
repeat_found es author key fresh m = elim (Option-cases (find (λ e. e.author_id == author) es)) [
  | inl n ↦
      let (y, k, q) = In-authors author es m in
      let other = find-none (λ e. e.author_id == author) es y n k in
      cc ((eq_iff y.author_id author).1 q, other)
  | inr y ↦ (y.0, (In-find (λ e. e.author_id == author) es y.0 y.1).0, ground (arith, y.1, fresh))
]

module _ (h : Host) (w : World) (sid bid : String)
    (consistent : IsConsistent h.digest w.store) where
  -- An event of the batch with the same key would have stopped the append.
  key_taken :
      (input : SubmitSealedContributionInput) (x : AppendEventInput) (y : EventEnvelope)
      → input.session_id ≡ sid
      → x.session_id ≡ input.session_id
      → x.idempotency_key ≡ input.idempotency_key
      → find_existing w.store (create_idempotency_lookup_key x) ≡ none
      → In y (contributions w.store sid bid)
      → repeats_key input.idempotency_key y.idempotency_key ≡ true
      → ⊥
  key_taken input x y a xa xk free m e =
      let (k, p, q, filled) = repeats_parts input.idempotency_key y.idempotency_key e in
      let listed = In-contributions w.store sid bid y m in
      let ys =
        Numbered-session sid 0 (get_session_events w.store sid) y (consistent.numbered sid)
          listed in
      let ky = lookup_key y.input k q filled in
      let kx = lookup_key x k (xk ∙ p) filled in
      let key : create_idempotency_lookup_key x ≡ create_idempotency_lookup_key y.input =
        kx ∙ (ap (λ z. some (z +++ (":" +++ k))) (xa ∙ (a ∙ sym ys)) ∙ sym ky) in
      let found = consistent.remembered sid y _ listed ky in cc (free, key, ky, found)

  author_is_new :
      (input : SubmitSealedContributionInput) (x : AppendEventInput)
      → Submits h input w x
      → input.session_id ≡ sid
      → input.batch_id ≡ bid
      → find_existing w.store (create_idempotency_lookup_key x) ≡ none
      → In input.author_id (authors (contributions w.store sid bid))
      → ⊥
  unfolding contribution_input
  author_is_new input x su a b free m =
      let state : su.state.contribution_events ≡ contributions w.store sid bid =
        state_contributions h w.store sid bid su.state
          (subst₂ (λ y z. get_open_batch_state h w.store y z ≡ ok su.state) a b su.open_batch) in
      let fresh =
        subst (λ es. no_duplicate_contribution es input.author_id input.idempotency_key ≡ true)
          state su.fresh in
      let (y, k, e) =
        repeat_found (contributions w.store sid bid) input.author_id input.idempotency_key fresh
          m in
      key_taken input x y a (ap (λ (z : AppendEventInput). z.session_id) su.written)
        (ap (λ (z : AppendEventInput). z.idempotency_key) su.written) free k e

-- What holds of the store in every history: it is consistent, and no author repeats in a batch.
pub record IsSound (h : Host) (w : World) : Type 0 where
  pub consistent : IsConsistent h.digest w.store
  pub unique : (sid bid : String) → Distinct (authors (contributions w.store sid bid))

change-IsConsistent :
    (h : Host) (s t : InMemoryEventStore)
    → StoreChange h s t
    → IsConsistent h.digest s
    → IsConsistent h.digest t
change-IsConsistent h s t (kept p) c = rw p c
change-IsConsistent h s t (added x p) c = rw p (append_event_result-IsConsistent h x s c)

author-link_event :
    (h : Host) (input : SubmitSealedContributionInput) (w : World) (x : AppendEventInput)
    → Submits h input w x
    → (link_event h x w.store).author_id ≡ input.author_id
unfolding link_event contribution_input
author-link_event h input w x su = ap (λ (z : AppendEventInput). z.author_id) su.written

Step-IsSound : (h : Host) (w v : World) → Step h w v → IsSound h w → IsSound h v
Step-IsSound h w v st i = record {
  consistent = change-IsConsistent h w.store v.store (Step-change st) i.consistent;
  unique = λ sid bid. elim (Step-Contributes h w sid bid v st) [
    | same p ↦ rw p (i.unique sid bid)
    | more input x su a b free p ↦
        rw (p, map-append)
          (Distinct-append_one (authors (contributions w.store sid bid))
            (link_event h x w.store).author_id (i.unique sid bid)
            (λ m.
              author_is_new h w sid bid i.consistent input x su a b free
                (rw (author-link_event h input w x su) at m)))
  ];
}

IsSound-start : (h : Host) → IsSound h start
unfolding contributions list_events_by_batch filter get_session_events get get_or
IsSound-start h = record { consistent = IsConsistent-empty h.digest; unique = λ sid bid. tt }

-- In every history from the empty store, each session's events are numbered, hash-linked and indexed
-- without a gap, and no participant has two contributions in one batch.
pub Reach-IsSound : (h : Host) (w : World) → Reach h start w → IsSound h w
Reach-IsSound h w here = IsSound-start h
Reach-IsSound h w (next {u} r st) = Step-IsSound h u w st (Reach-IsSound h u r)
