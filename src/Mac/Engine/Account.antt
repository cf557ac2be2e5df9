-- ===== src/Mac/Engine/Account.antt =====
-- engine.rs: what becomes of every MPDU of a batch when an attempt ends.
use s2g.Base.{
  ℕ, suc, ◌+◌, ◌≤◌, ◌<◌, ◌≡◌, ltb, List, [], ◌∷◌, Bool, true, false, Option, none, some, ◌&&◌,
  if◌then◌else◌, length, refl, arith, Bool-cases, inl, inr, sym,
}
use s2g.Base.Floats.{Floats}
use s2g.Mac.Addr.{MacAddr}
use s2g.Mac.Filter.Policy.{contains}
use s2g.Mac.Engine.Types.{
  Mac, PendingMpdu, CurrentTx, MacEvent, tx_complete, tx_dropped, retry_limit,
}
use s2g.Mac.Engine.Queue.{rand_u32}
use s2g.Mac.Engine.Access.{
  resolve_one, resolve_mpdus, start_backoff, finish_batch, continue_batch, resolve_batch,
  resolve_attempt, is_empty, hdr_len,
}

-- The MPDUs of an attempt that were acknowledged.
unfoldable pub acknowledged : List ℕ → (ℕ → Bool) → ℕ → List PendingMpdu → ℕ
acknowledged flying acked i [] = 0
acknowledged flying acked i (m ∷ ms) =
    (if contains flying i && acked m.seq then 1 else 0) + acknowledged flying acked (suc i) ms

-- The completions among events.
unfoldable pub completions : List MacEvent → ℕ
completions [] = 0
completions (tx_complete dest acked retries mcs ∷ es) = suc (completions es)
completions (MacEvent.eth_received f ∷ es) = completions es
completions (tx_dropped dest r ∷ es) = completions es
completions (MacEvent.ndp_received f ∷ es) = completions es
completions (MacEvent.ident_sent t ∷ es) = completions es
completions (MacEvent.ident_received a t ∷ es) = completions es
completions (MacEvent.filtered r ∷ es) = completions es

resolve_mpdus_accounts :
    (dest : MacAddr) (mcs hdr limit : ℕ) (flying : List ℕ) (acked : ℕ → Bool) (i : ℕ)
    (ms : List PendingMpdu)
    → let r = resolve_mpdus dest mcs hdr limit flying acked i ms in
      (length r.events + length r.kept ≡ length ms)
      × (completions r.events ≡ acknowledged flying acked i ms)
      × (r.n_acked ≡ acknowledged flying acked i ms)
unfolding resolve_mpdus resolve_one completions acknowledged
resolve_mpdus_accounts dest mcs hdr limit flying acked i [] = (refl, refl, refl)
resolve_mpdus_accounts dest mcs hdr limit flying acked i (m ∷ ms) =
    ground (arith, resolve_mpdus_accounts dest mcs hdr limit flying acked (suc i) ms)

-- What the end of an attempt makes of the MPDUs of a batch, from the index `i` on: the events, and the
-- MPDUs that stay. One constructor for each fate.
pub data Resolves (dest : MacAddr) (mcs limit : ℕ) (flying : List ℕ) (acked : ℕ → Bool)
    : ℕ → List PendingMpdu → List MacEvent → List PendingMpdu → Type 0 where
  none_left : {i : ℕ} → Resolves dest mcs limit flying acked i [] [] []
  -- on the air and acknowledged
  delivered :
      {i : ℕ} {ms ks : List PendingMpdu} {es : List MacEvent} (m : PendingMpdu)
      → contains flying i ≡ true
      → acked m.seq ≡ true
      → Resolves dest mcs limit flying acked (suc i) ms es ks
      → Resolves dest mcs limit flying acked i
          (m ∷ ms)
          (tx_complete dest true m.retries mcs ∷ es)
          ks
  -- on the air, not acknowledged, without a retry left
  given_up :
      {i : ℕ} {ms ks : List PendingMpdu} {es : List MacEvent} (m : PendingMpdu)
      → contains flying i ≡ true
      → acked m.seq ≡ false
      → limit ≤ m.retries
      → Resolves dest mcs limit flying acked (suc i) ms es ks
      → Resolves dest mcs limit flying acked i (m ∷ ms) (tx_dropped dest retry_limit ∷ es) ks
  -- on the air, not acknowledged, with a retry left
  retried :
      {i : ℕ} {ms ks : List PendingMpdu} {es : List MacEvent} (m : PendingMpdu)
      → contains flying i ≡ true
      → acked m.seq ≡ false
      → m.retries < limit
      → Resolves dest mcs limit flying acked (suc i) ms es ks
      → Resolves dest mcs limit flying acked i
          (m ∷ ms)
          es
          (record m { retries = m.retries + 1 } ∷ ks)
  -- not on the air
  held :
      {i : ℕ} {ms ks : List PendingMpdu} {es : List MacEvent} (m : PendingMpdu)
      → contains flying i ≡ false
      → Resolves dest mcs limit flying acked (suc i) ms es ks
      → Resolves dest mcs limit flying acked i (m ∷ ms) es (m ∷ ks)

resolve_mpdus-Resolves :
    (dest : MacAddr) (mcs hdr limit : ℕ) (flying : List ℕ) (acked : ℕ → Bool) (i : ℕ)
    (ms : List PendingMpdu)
    → let r = resolve_mpdus dest mcs hdr limit flying acked i ms in
      Resolves dest mcs limit flying acked i ms r.events r.kept
unfolding resolve_mpdus resolve_one
resolve_mpdus-Resolves dest mcs hdr limit flying acked i [] = none_left
resolve_mpdus-Resolves dest mcs hdr limit flying acked i (m ∷ ms) =
    let rest = resolve_mpdus-Resolves dest mcs hdr limit flying acked (suc i) ms in
    elim (Bool-cases (contains flying i)) [
      | inr e ↦ rw e (held m e rest)
      | inl e ↦ (elim (Bool-cases (acked m.seq)) [
        | inl y ↦ rw (e, y) (delivered m e y rest)
        | inr n ↦ (elim (Bool-cases (ltb limit (m.retries + 1))) [
          | inl l ↦ rw (e, n, l) (given_up m e n (ground arith) rest)
          | inr l ↦ rw (e, n, l) (retried m e n (ground arith) rest)
        ])
      ])
    ]

-- The MPDUs of the batch that the engine has.
abbrev pub mpdus_of : Option CurrentTx → List PendingMpdu
mpdus_of none = []
mpdus_of (some c) = c.mpdus

module _ (fl : Floats) where
  empty_list : (ms : List PendingMpdu) → is_empty fl ms ≡ true → ms ≡ []
  empty_list [] e = refl
  empty_list (m ∷ ms) e = absurd (ground arith)

  resolve_batch_mpdus :
      (acked : ℕ → Bool) (now : ℕ) (c : CurrentTx) (m : Mac fl)
      → mpdus_of (resolve_batch fl acked now c m).0.cur
        ≡ (resolve_mpdus c.dest c.choice.mcs
            (hdr_len c.qos)
            m.cfg.max_retries
            c.in_flight
            acked
            0
            c.mpdus).kept
  unfolding resolve_batch finish_batch continue_batch start_backoff rand_u32
  resolve_batch_mpdus acked now c m =
      let r =
        resolve_mpdus c.dest c.choice.mcs (hdr_len c.qos) m.cfg.max_retries c.in_flight acked 0
          c.mpdus in
      elim (Bool-cases (is_empty fl r.kept)) [
        | inl e ↦ rw e (sym (empty_list r.kept e))
        | inr e ↦ rw e refl
      ]

  -- The end of an attempt of a batch, for its MPDUs in order: one that was on the air and acknowledged
  -- is reported as complete with its retries, one that was on the air without an acknowledgment and has
  -- no retry left is reported as dropped, and these are all the events and the MPDUs that leave the
  -- batch; of those that stay, exactly the ones that were on the air have a retry more. The completions
  -- are as many as the MPDUs acknowledged on the air, and no MPDU is lost or doubled.
  pub resolve_attempt_accounts :
      (acked : ℕ → Bool) (now : ℕ) (c : CurrentTx) (m : Mac fl)
      → m.cur ≡ some c
      → Resolves c.dest c.choice.mcs m.cfg.max_retries c.in_flight acked 0 c.mpdus
          (resolve_attempt fl acked now m).1
          (mpdus_of (resolve_attempt fl acked now m).0.cur)
        × (completions (resolve_attempt fl acked now m).1
            ≡ acknowledged c.in_flight acked 0 c.mpdus)
        × (length (resolve_attempt fl acked now m).1
              + length (mpdus_of (resolve_attempt fl acked now m).0.cur)
            ≡ length c.mpdus)
  unfolding resolve_attempt resolve_batch
  resolve_attempt_accounts acked now c m e =
      let a =
        resolve_mpdus_accounts c.dest c.choice.mcs (hdr_len c.qos) m.cfg.max_retries c.in_flight
          acked 0 c.mpdus in
      let fates =
        resolve_mpdus-Resolves c.dest c.choice.mcs (hdr_len c.qos) m.cfg.max_retries c.in_flight
          acked 0 c.mpdus in
      rw (e, resolve_attempt) (rw (resolve_batch_mpdus acked now c m) (fates, a.1, a.0))
