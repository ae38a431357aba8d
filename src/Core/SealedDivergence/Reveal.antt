-- ===== src/Core/SealedDivergence/Reveal.antt =====
-- The reveal policies: what `assertRevealPolicyCanClose` accepts, against a description of each policy.
use deliberum.Prelude.{
  ℕ, ◌≤◌, String, ◌≡◌, refl, ◌↔◌, inl, inr, true, false, some, List, [], ◌∷◌, map, arith,
  Bool-cases, Option-cases, length, all, contains, In, contains→In, In→contains, Distinct,
  to_set-Distinct, In-to_set, all→In, In→all, Distinct-length-le,
}
use native.Mathlib.Nat.{le_trans}
use deliberum.Errors.{ok}
use deliberum.Protocol.Core.{
  SealedBatch, SealedBatchRevealPolicy, all_completed, quorum, deadline, manual, is_empty,
}
use deliberum.Protocol.Events.{EventEnvelope}
use deliberum.Protocol.Host.{Host, Millis, after, before, millis_lt}
use deliberum.Core.SealedDivergence.{
  contributed_author_ids, deadline_passed, check_deadline, check_quorum, check_all_completed,
  check_policy, assert_reveal_policy_can_close,
}

-- The moment `now` is not before `limit`.
abbrev pub NotBefore : Millis → Millis → Type 0
NotBefore (after a) (after b) = b ≤ a
NotBefore (after a) (before b) = Unit
NotBefore (before a) (after b) = ⊥
NotBefore (before a) (before b) = a ≤ b

abbrev pub authors : List EventEnvelope → List String
authors events = map (λ e. e.author_id) events

abbrev pub MayReveal :
    Host → SealedBatchRevealPolicy → SealedBatch → List EventEnvelope → String → Type 0
MayReveal h manual batch events at = Unit
MayReveal h quorum batch events at =
    (q : ℕ) × (ds : List String) × (batch.quorum_count ≡ some q)
    × Distinct ds
    × ((a : String) → In a ds → In a (authors events))
    × (q ≤ length ds)
MayReveal h deadline batch events at =
    (t : String) × (now : Millis) × (limit : Millis) × (batch.deadline_at ≡ some t)
    × (h.date_parse at ≡ some now)
    × (h.date_parse t ≡ some limit)
    × NotBefore now limit
MayReveal h all_completed batch events at =
    (p : String) → In p batch.participant_ids → In p (authors events)

millis_lt_iff : (now limit : Millis) → (millis_lt now limit ≡ false) ↔ NotBefore now limit
unfolding millis_lt
millis_lt_iff (after a) (after b) = (λ e. ground arith, λ n. ground arith)
millis_lt_iff (after a) (before b) = (λ e. tt, λ n. refl)
millis_lt_iff (before a) (after b) = (λ e. cc, λ n. absurd n)
millis_lt_iff (before a) (before b) = (λ e. ground arith, λ n. ground arith)

no_member : (xs : List String) (p : String) → is_empty xs ≡ true → In p xs → ⊥
unfolding is_empty
no_member [] p e m = elim m [ ]
no_member (x ∷ xs) p e m = cc

module _ (h : Host) (batch : SealedBatch) (events : List EventEnvelope) (at : String) where
  enough :
      (q : ℕ)
      → batch.quorum_count ≡ some q
      → check_quorum batch batch.quorum_count (contributed_author_ids events) ≡ ok tt
      → q ≤ length (contributed_author_ids events)
  unfolding check_quorum
  enough q p e = ground arith

  passes :
      (q : ℕ)
      → batch.quorum_count ≡ some q
      → q ≤ length (contributed_author_ids events)
      → check_quorum batch batch.quorum_count (contributed_author_ids events) ≡ ok tt
  unfolding check_quorum
  passes q p le = rw (p, check_quorum) (ground arith)

  In-authors : (a : String) → In a (authors events) → In a (contributed_author_ids events)
  unfolding contributed_author_ids
  In-authors a m = (In-to_set (authors events) a).1 m

  from_authors : (a : String) → In a (contributed_author_ids events) → In a (authors events)
  unfolding contributed_author_ids
  from_authors a m = (In-to_set (authors events) a).0 m

  not_complete :
      check_all_completed batch (contributed_author_ids events) ≡ ok tt
      → all (contains (contributed_author_ids events)) batch.participant_ids ≡ false
      → (p : String) → In p batch.participant_ids
      → ⊥
  unfolding check_all_completed
  not_complete e short p m = elim (Bool-cases (is_empty batch.participant_ids)) [
    | inl none_asked ↦ no_member batch.participant_ids p none_asked m
    | inr some_asked ↦ ground arith
  ]

  quorum_sound :
      check_quorum batch batch.quorum_count (contributed_author_ids events) ≡ ok tt
      → MayReveal h quorum batch events at
  unfolding check_quorum contributed_author_ids
  quorum_sound e = elim (Option-cases batch.quorum_count) [
    | inl n ↦ absurd (ground arith)
    | inr q ↦ (
      q.0,
      contributed_author_ids events,
      q.1,
      to_set-Distinct (authors events),
      (λ a m. (In-to_set (authors events) a).0 m),
      enough q.0 q.1 e,
    )
  ]

  quorum_complete :
      MayReveal h quorum batch events at
      → check_quorum batch batch.quorum_count (contributed_author_ids events) ≡ ok tt
  quorum_complete (q, ds, e, d, m, le) = passes q e (
      le_trans le
        (Distinct-length-le ds (contributed_author_ids events) d (λ a k. In-authors a (m a k))))

  deadline_sound :
      check_deadline h batch batch.deadline_at at ≡ ok tt → MayReveal h deadline batch events at
  unfolding check_deadline deadline_passed
  deadline_sound e = elim (Option-cases batch.deadline_at) [
    | inl n ↦ absurd (ground arith)
    | inr t ↦ elim (Option-cases (h.date_parse at)) [
      | inl n ↦ absurd (ground (arith, t.1))
      | inr now ↦ elim (Option-cases (h.date_parse t.0)) [
        | inl n ↦ absurd (ground (arith, t.1, now.1))
        | inr limit ↦ (
          t.0,
          now.0,
          limit.0,
          t.1,
          now.1,
          limit.1,
          (millis_lt_iff now.0 limit.0).0 (ground (arith, t.1, now.1, limit.1)),
        )
      ]
    ]
  ]

  deadline_complete :
      MayReveal h deadline batch events at → check_deadline h batch batch.deadline_at at ≡ ok tt
  unfolding check_deadline deadline_passed
  deadline_complete (t, now, limit, e, f, g, n) = ground (arith, (millis_lt_iff now limit).1 n)

  all_sound :
      check_all_completed batch (contributed_author_ids events) ≡ ok tt
      → MayReveal h all_completed batch events at
  unfolding check_all_completed is_empty
  all_sound e p m =
      elim (Bool-cases (all (contains (contributed_author_ids events)) batch.participant_ids)) [
        | inl full ↦ from_authors p (
            contains→In (contributed_author_ids events) p
              (all→In (contains (contributed_author_ids events)) batch.participant_ids full p m))
        | inr short ↦ absurd (not_complete e short p m)
      ]

  all_complete :
      MayReveal h all_completed batch events at
      → check_all_completed batch (contributed_author_ids events) ≡ ok tt
  unfolding check_all_completed
  all_complete m =
      let full : all (contains (contributed_author_ids events)) batch.participant_ids ≡ true =
        In→all (contains (contributed_author_ids events)) batch.participant_ids
          (λ p k. In→contains (contributed_author_ids events) p (In-authors p (m p k))) in
      rw full (ground arith)

  policy_iff :
      (p : SealedBatchRevealPolicy)
      → (check_policy h p batch events at ≡ ok tt) ↔ MayReveal h p batch events at
  unfolding check_policy
  policy_iff manual = (λ e. tt, λ m. refl)
  policy_iff quorum = (quorum_sound, quorum_complete)
  policy_iff deadline = (deadline_sound, deadline_complete)
  policy_iff all_completed = (all_sound, all_complete)

  -- The check passes exactly when the batch's policy allows the reveal.
  pub assert_reveal_policy_iff :
      (assert_reveal_policy_can_close h batch events at ≡ ok tt)
      ↔ MayReveal h batch.reveal_policy batch events at
  unfolding assert_reveal_policy_can_close
  assert_reveal_policy_iff = policy_iff batch.reveal_policy
