-- ===== src/Mac/Engine/Medium.antt =====
-- engine.rs: when a poll sends.
use s2g.Base.{
  ℕ, ◌≡◌, List, [], ◌∷◌, Bool, true, false, none, some, ltb, leb, ◌&&◌, ◌||◌, refl, Bool-cases, inl,
  inr, if_both, ◌∙◌, ap, sym, subst, Option-cases,
}
use s2g.Base.Floats.{Floats}
use s2g.Mac.Engine.Types.{
  Mac, TxState, idle, backoff, await_response, Expect, CurrentTx, MacEvent, Response, Queued,
}
use s2g.Mac.Engine.Queue.{rand_u32}
use s2g.Mac.Engine.Timing.{medium_busy}
use s2g.Mac.Engine.Access.{
  start_backoff, finish_batch, continue_batch, resolve_batch, resolve_attempt, fail_rts,
  fail_attempt, is_empty, is_cts,
}
use s2g.Mac.Engine.Poll.{
  Polled, pull, pull_batch, pull_queued, access, expire, poll, poll_with, is_idle, is_none,
  ident_due, respond_with,
}

module _ (fl : Floats) where
  -- What the engine knows of the medium.
  abbrev Medium : Type 0
  Medium = Bool × ℕ × ℕ × ℕ

  abbrev medium : Mac fl → Medium
  medium m = (m.cca_busy, m.busy_until_us, m.nav_until_us, m.rid_until_us)

  abbrev Keeps : Mac fl → Mac fl × List MacEvent → Type 0
  Keeps m r = medium r.0 ≡ medium m

  medium-start_backoff : (now : ℕ) (m : Mac fl) → medium (start_backoff fl now m) ≡ medium m
  unfolding start_backoff rand_u32
  medium-start_backoff now m = refl

  resolve_batch_medium :
      (acked : ℕ → Bool) (now : ℕ) (c : CurrentTx) (m : Mac fl)
      → Keeps m (resolve_batch fl acked now c m)
  unfolding resolve_batch finish_batch continue_batch start_backoff rand_u32
  resolve_batch_medium acked now c m =
      let P : Mac fl → Type 0 = λ n. medium n ≡ medium m in if_both P (is_empty fl _) refl refl

  resolve_attempt_medium :
      (acked : ℕ → Bool) (now : ℕ) (m : Mac fl) → Keeps m (resolve_attempt fl acked now m)
  unfolding resolve_attempt
  resolve_attempt_medium acked now m = elim (Option-cases m.cur) [
    | inl e ↦ rw (e, resolve_attempt) refl
    | inr (c, e) ↦ rw (e, resolve_attempt) (resolve_batch_medium acked now c m)
  ]

  fail_rts_medium : (now : ℕ) (c : CurrentTx) (m : Mac fl) → Keeps m (fail_rts fl now c m)
  unfolding fail_rts finish_batch start_backoff rand_u32
  fail_rts_medium now c m =
      let P : Mac fl → Type 0 = λ n. medium n ≡ medium m in if_both P (is_empty fl _) refl refl

  fail_attempt_medium : (now : ℕ) (m : Mac fl) → Keeps m (fail_attempt fl now m)
  unfolding fail_attempt
  fail_attempt_medium now m = by_cases m.state refl
    where
      late : Expect → Mac fl
      late x = record m { late_expect = some (x, m.sent_end_us) }

      by_cases : (s : TxState) → m.state ≡ s → Keeps m (fail_attempt fl now m)
      by_cases idle e = rw (e, fail_attempt) (resolve_attempt_medium (λ seq. false) now m)
      by_cases (backoff t) e = rw (e, fail_attempt) (resolve_attempt_medium (λ seq. false) now m)
      by_cases (await_response t x) e =
          rw (e, fail_attempt)
            (elim (Bool-cases (is_cts fl x)) [
              | inr f ↦ rw f (resolve_attempt_medium (λ seq. false) now (late x))
              | inl f ↦ rw f (elim (Option-cases m.cur) [
                | inl none_left ↦ rw none_left refl
                | inr (c, some_left) ↦ rw some_left (fail_rts_medium now c (late x))
              ])
            ])

  medium-expire : (s : TxState) (now : ℕ) (m : Mac fl) → Keeps m (expire fl s now m)
  unfolding expire
  medium-expire idle now m = refl
  medium-expire (backoff until) now m = refl
  medium-expire (await_response deadline x) now m =
      if_both (Keeps m) (leb deadline now) (fail_attempt_medium now m) refl

  medium-pull_queued :
      (now : ℕ) (q : List Queued) (m : Mac fl) → medium (pull_queued fl now q m) ≡ medium m
  unfolding pull_queued pull_batch start_backoff rand_u32
  medium-pull_queued now [] m = refl
  medium-pull_queued now (q ∷ qs) m = refl

  medium-pull : (now : ℕ) (m : Mac fl) → medium (pull fl now m) ≡ medium m
  unfolding pull start_backoff rand_u32
  medium-pull now m =
      let P : Mac fl → Type 0 = λ n. medium n ≡ medium m in
      if_both P (is_idle m.state && is_none m.cur)
        (if_both P (ident_due fl m now) refl (medium-pull_queued now m.queue m)) refl

  medium_busy_same :
      (m n : Mac fl) (now : ℕ)
      → medium n ≡ medium m
      → medium_busy fl m now ≡ true
      → medium_busy fl n now ≡ true
  unfolding medium_busy
  medium_busy_same m n now e busy =
      ap (λ (t : Medium). t.0 || ltb now t.1 || ltb now t.2 || ltb now t.3) e ∙ busy

  access_busy :
      (s : TxState) (now : ℕ) (m : Mac fl)
      → medium_busy fl m now ≡ true
      → (access fl s now m).action ≡ none
  unfolding access
  access_busy idle now m busy = refl
  access_busy (await_response t x) now m busy = refl
  access_busy (backoff until) now m busy =
      let P : Polled fl → Type 0 = λ r. r.action ≡ none in
      if_both P (ltb now until) refl (rw busy refl)

  poll_with_busy :
      (now : ℕ) (m : Mac fl) → medium_busy fl m now ≡ true → (poll_with fl [] now m).action ≡ none
  unfolding poll_with
  poll_with_busy now m busy =
      access_busy _ now _
        (medium_busy_same m _ now (medium-pull now _ ∙ medium-expire m.state now m) busy)

  -- While the carrier is busy, or a NAV, a deferral or a predicted PPDU lasts, a poll with no response
  -- queued sends nothing.
  pub poll_busy :
      (now : ℕ) (m : Mac fl)
      → m.responses ≡ []
      → medium_busy fl m now ≡ true
      → (poll fl now m).action ≡ none
  unfolding poll
  poll_busy now m empty busy =
      subst (λ (r : List Response). (poll_with fl r now m).action ≡ none) (sym empty)
        (poll_with_busy now m busy)

  -- A poll with a response queued sends that response and only takes it from its queue, also while the
  -- medium is busy.
  pub poll_response :
      (now : ℕ) (m : Mac fl) (r : Response) (rs : List Response)
      → m.responses ≡ r ∷ rs
      → ((poll fl now m).action ≡ some (respond_with fl r))
        × ((poll fl now m).mac ≡ record m { responses = rs })
        × ((poll fl now m).events ≡ [])
  unfolding poll poll_with
  poll_response now m r rs e =
      subst
        (λ (q : List Response).
          ((poll_with fl q now m).action ≡ some (respond_with fl r))
          × ((poll_with fl q now m).mac ≡ record m { responses = rs })
          × ((poll_with fl q now m).events ≡ []))
        (sym e) (refl, refl, refl)
