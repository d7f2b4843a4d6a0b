-- ===== src/Operator/Orphans/Grace.antt =====
-- reapOrphanedClients within the grace period of the orphans on record.
use thunder_device_plugin.Base.{
  ℕ, ◌+◌, ◌≤◌, ◌<◌, ◌≡◌, refl, ◌∙◌, Bool, true, Option, some, List, [], ◌∷◌, Str, arith, ◌==◌, ltb,
  lookup, erase, Assoc, All, All-insert, All-lookup, keep, text_eq, Outcome-branch, Option-branch,
  if-branch, is_nil, ◌||◌, eqb, false, length, inl, inr, Option-cases, Outcome-cases,
}
use thunder_device_plugin.Operator.Orphans.Defs.{
  ClientObject, ClientResource, Reaper, claim_is_alive, reap_when_due, reap_item, reap_items,
  reap_orphaned_clients, object_key, revoke, release, reap, without_finalizer,
}

-- What is observed of the cluster: the enrollment tokens that are in force, and that reading the
-- cluster revokes none. No call turns the clock back.
pub record ReadsOnly {W : Type 0} (o : Reaper W) (resource : ClientResource W)
    (tokens : W → List Str) : Type 0 where
  pub get_claim_keeps :
      (namespace name : Str) (w : W) → tokens (o.get_claim_uid namespace name w).1 ≡ tokens w
  pub list_keeps : (w : W) → tokens (resource.list w).1 ≡ tokens w
  pub get_claim_later :
      (namespace name : Str) (w : W) → o.now w ≤ o.now (o.get_claim_uid namespace name w).1
  pub list_later : (w : W) → o.now w ≤ o.now (resource.list w).1
  pub unenroll_later : (token : Str) (w : W) → o.now w ≤ o.now (o.unenroll_client token w).1
  pub update_later : (item : ClientObject) (w : W) → o.now w ≤ o.now (resource.update item w).1
  pub delete_later :
      (namespace name : Str) (w : W) → o.now w ≤ o.now (resource.delete namespace name w).1

-- An orphan that is still within its grace period at the time `finish`.
abbrev pub IsWaiting : ℕ → ℕ → Str × ℕ → Type 0
IsWaiting grace finish entry = finish < entry.1 + grace

module _ {W : Type 0} (o : Reaper W) (resource : ClientResource W) (tokens : W → List Str)
    (reads : ReadsOnly o resource tokens) where
  Later : {A : Type 0} → W → A × W → Type 0
  Later w r = o.now w ≤ o.now r.1

  LaterState : {A : Type 0} → W → A × (Assoc Str ℕ × W) → Type 0
  LaterState w r = o.now w ≤ o.now r.1.1

  le_refl : (n : ℕ) → n ≤ n
  le_refl n = omega arith

  revoke-Later : (item : ClientObject) (w : W) → Later w (revoke o item w)
  unfolding revoke Later
  revoke-Later item w =
      if-branch (Later w) (is_nil item.token_id) _ _ (λ blank. le_refl (o.now w))
        (λ named. reads.unenroll_later item.token_id w)

  release-Later : (item : ClientObject) (w : W) → Later w (release o resource item w)
  unfolding release Later
  release-Later item w =
      let kept = without_finalizer item.finalizers in
      if-branch (Later w) (eqb (length kept) (length item.finalizers)) _ _
        (λ free. le_refl (o.now w))
        (λ held. reads.update_later (record item { finalizers = kept }) w)

  reap-Later : (item : ClientObject) (w : W) → Later w (reap o resource item w)
  unfolding reap Later
  reap-Later item w =
      let revoked = revoke o item w in
      let released = release o resource item revoked.1 in
      let first = revoke-Later item w in
      let second = release-Later item revoked.1 in
      let third = reads.delete_later item.namespace item.name released.1 in
      Option-branch (Later w) revoked.0 _ _
        (λ done.
          Option-branch (Later w) released.0 _ _ (λ free. omega (arith, first, second, third))
            (λ e failed. omega (arith, first, second)))
        (λ e failed. first)

  reap_when_due-Later :
      (item : ClientObject) (orphans : Assoc Str ℕ) (w : W)
      → LaterState w (reap_when_due o resource item orphans w)
  unfolding reap_when_due LaterState Later
  reap_when_due-Later item orphans w =
      let reaped = reap o resource item w in
      let later = reap-Later item w in
      Option-branch (LaterState w) (lookup (object_key item) orphans) _ _
        (λ missing. le_refl (o.now w))
        (λ first_seen found.
          if-branch (LaterState w) (ltb (o.now w) (first_seen + o.orphan_grace_period)) _ _
            (λ early. le_refl (o.now w))
            (λ due. Option-branch (LaterState w) reaped.0 _ _ (λ done. later) (λ e failed. later)))

  claim_is_alive-Later : (item : ClientObject) (w : W) → Later w (claim_is_alive o item w)
  unfolding claim_is_alive Later
  claim_is_alive-Later item w =
      if-branch (Later w) (is_nil item.claim_namespace || is_nil item.claim_name) _ _
        (λ unknown. le_refl (o.now w))
        (λ known. reads.get_claim_later item.claim_namespace item.claim_name w)

  reap_item-Later :
      (item : ClientObject) (orphans : Assoc Str ℕ) (w : W)
      → LaterState w (reap_item o resource item orphans w)
  unfolding reap_item LaterState Later
  reap_item-Later item orphans w =
      let checked = claim_is_alive o item w in
      let first = claim_is_alive-Later item w in
      let second = reap_when_due-Later item orphans checked.1 in
      Outcome-branch (LaterState w) checked.0 _ _
        (λ lives answered.
          if-branch (LaterState w) lives _ _ (λ alive. first)
            (λ dead. omega (arith, first, second)))
        (λ e failed. first)

  reap_items-Later :
      (items : List ClientObject) (orphans : Assoc Str ℕ) (w : W)
      → LaterState w (reap_items o resource items orphans w)
  unfolding reap_items LaterState
  reap_items-Later [] orphans w = le_refl (o.now w)
  reap_items-Later (item ∷ items) orphans w =
      let state = (reap_item o resource item orphans w).1 in
      let first = reap_item-Later item orphans w in
      let rest = reap_items-Later items state.0 state.1 in
      Option-branch (LaterState w) (reap_item o resource item orphans w).0 _ _
        (λ fine. omega (arith, first, rest)) (λ e failed. first)

module _ {W : Type 0} (o : Reaper W) (resource : ClientResource W) (tokens : W → List Str)
    (reads : ReadsOnly o resource tokens) (start finish : ℕ)
    (brief : finish < start + o.orphan_grace_period) where
  -- The tokens are those of before, and every orphan is still waiting.
  record Waits {E : Type 0} (w : W) (result : Option E × (Assoc Str ℕ × W)) : Type 0 where
    kept : tokens result.1.1 ≡ tokens w
    waiting : All (IsWaiting o.orphan_grace_period finish) result.1.0

  erase-IsWaiting :
      (key : Str) (orphans : Assoc Str ℕ)
      → All (IsWaiting o.orphan_grace_period finish) orphans
      → All (IsWaiting o.orphan_grace_period finish) (erase key orphans)
  unfolding erase
  erase-IsWaiting key [] h = tt
  erase-IsWaiting key ((k, t) ∷ m) h =
      if-branch (All (IsWaiting o.orphan_grace_period finish)) (k == key) _ _
        (λ same. erase-IsWaiting key m h.1) (λ other. (h.0, erase-IsWaiting key m h.1))

  keep-IsWaiting :
      (p : Str × ℕ → Bool) (orphans : Assoc Str ℕ)
      → All (IsWaiting o.orphan_grace_period finish) orphans
      → All (IsWaiting o.orphan_grace_period finish) (keep p orphans)
  keep-IsWaiting p [] h = tt
  keep-IsWaiting p (entry ∷ m) h =
      if-branch (All (IsWaiting o.orphan_grace_period finish)) (p entry) _ _
        (λ kept. (h.0, keep-IsWaiting p m h.1)) (λ dropped. keep-IsWaiting p m h.1)

  reap_when_due-Waits :
      (item : ClientObject) (orphans : Assoc Str ℕ) (w : W)
      → start ≤ o.now w
      → o.now (reap_when_due o resource item orphans w).1.1 ≤ finish
      → All (IsWaiting o.orphan_grace_period finish) orphans
      → Waits w (reap_when_due o resource item orphans w)
  unfolding reap_when_due LaterState
  reap_when_due-Waits item orphans w begun ends h =
      let in_time = reap_when_due-Later o resource tokens reads item orphans w in
      Option-branch (Waits w) (lookup (object_key item) orphans) _ _
        (λ missing. record {
          kept = refl;
          waiting =
              All-insert (IsWaiting o.orphan_grace_period finish) (object_key item) (o.now w)
                orphans h (omega (arith, brief, begun));
        })
        (λ first_seen found.
          let early : ltb (o.now w) (first_seen + o.orphan_grace_period) ≡ true = ground (
            arith,
            in_time,
            ends,
            All-lookup (IsWaiting o.orphan_grace_period finish) (object_key item) first_seen orphans
                h found,
          ) in
          rw early (record { kept = refl; waiting = h }))

  KeepsTokens : {A : Type 0} → W → A × W → Type 0
  KeepsTokens w r = tokens r.1 ≡ tokens w

  claim_is_alive_keeps : (item : ClientObject) (w : W) → KeepsTokens w (claim_is_alive o item w)
  unfolding claim_is_alive KeepsTokens
  claim_is_alive_keeps item w =
      if-branch (KeepsTokens w) (is_nil item.claim_namespace || is_nil item.claim_name) _ _
        (λ unknown. refl) (λ known. reads.get_claim_keeps item.claim_namespace item.claim_name w)

  Waits-from :
      {E : Type 0} (w w' : W) (result : Option E × (Assoc Str ℕ × W))
      → tokens w' ≡ tokens w
      → Waits w' result
      → Waits w result
  Waits-from w w' result same h = record { kept = h.kept ∙ same; waiting = h.waiting }

  reap_item-Waits :
      (item : ClientObject) (orphans : Assoc Str ℕ) (w : W)
      → start ≤ o.now w
      → o.now (reap_item o resource item orphans w).1.1 ≤ finish
      → All (IsWaiting o.orphan_grace_period finish) orphans
      → Waits w (reap_item o resource item orphans w)
  unfolding reap_item KeepsTokens Later
  reap_item-Waits item orphans w begun ends h =
      let same = claim_is_alive_keeps item w in
      let w' = (claim_is_alive o item w).1 in
      let begun' : start ≤ o.now w' =
        omega (arith, begun, claim_is_alive-Later o resource tokens reads item w) in
      elim (Outcome-cases (claim_is_alive o item w).0) [
        | inl (true, alive) ↦
            rw (alive, reap_item)
              (record { kept = same; waiting = erase-IsWaiting (object_key item) orphans h })
        | inl (false, dead) ↦
            rw (dead, reap_item)
              (Waits-from w w' (reap_when_due o resource item orphans w') same
                (reap_when_due-Waits item orphans w' begun' (rw (dead, reap_item) at ends) h))
        | inr (e, failed) ↦ rw (failed, reap_item) (record { kept = same; waiting = h })
      ]

  reap_items-Waits :
      (items : List ClientObject) (orphans : Assoc Str ℕ) (w : W)
      → start ≤ o.now w
      → o.now (reap_items o resource items orphans w).1.1 ≤ finish
      → All (IsWaiting o.orphan_grace_period finish) orphans
      → Waits w (reap_items o resource items orphans w)
  unfolding reap_items LaterState
  reap_items-Waits [] orphans w begun ends h = record { kept = refl; waiting = h }
  reap_items-Waits (item ∷ items) orphans w begun ends h =
      let state = (reap_item o resource item orphans w).1 in
      let later = reap_item-Later o resource tokens reads item orphans w in
      let rest_later = reap_items-Later o resource tokens reads items state.0 state.1 in
      elim (Option-cases (reap_item o resource item orphans w).0) [
        | inl fine ↦
            let ends' : o.now (reap_items o resource items state.0 state.1).1.1 ≤ finish =
              rw (fine, reap_items) at ends in
            let first = reap_item-Waits item orphans w begun (omega (arith, rest_later, ends')) h in
            rw (fine, reap_items)
              (Waits-from w state.1 (reap_items o resource items state.0 state.1) first.kept (
                reap_items-Waits items state.0 state.1 (omega (arith, begun, later)) ends'
                  first.waiting))
        | inr (e, failed) ↦
            let first = reap_item-Waits item orphans w begun (rw (failed, reap_items) at ends) h in
            rw (failed, reap_items) (record { kept = first.kept; waiting = first.waiting })
      ]

  pass-Waits :
      (orphans : Assoc Str ℕ) (w : W)
      → start ≡ o.now w
      → o.now (reap_orphaned_clients o orphans w).1.1 ≤ finish
      → o.clients ≡ some resource
      → All (IsWaiting o.orphan_grace_period finish) orphans
      → Waits w (reap_orphaned_clients o orphans w)
  unfolding reap_orphaned_clients
  pass-Waits orphans w begun ends enabled h =
      let w' = (resource.list w).1 in
      let same = reads.list_keeps w in
      let begun' : start ≤ o.now w' = omega (arith, begun, reads.list_later w) in
      elim (Outcome-cases (resource.list w).0) [
        | inl (items, listed) ↦
            let state = (reap_items o resource items orphans w').1 in
            elim (Option-cases (reap_items o resource items orphans w').0) [
              | inl fine ↦
                  let rest =
                    reap_items-Waits items orphans w' begun'
                      (rw (enabled, listed, fine, reap_orphaned_clients) at ends) h in
                  rw (enabled, listed, fine, reap_orphaned_clients)
                    (record {
                      kept = rest.kept ∙ same;
                      waiting = keep-IsWaiting _ state.0 rest.waiting;
                    })
              | inr (e, failed) ↦
                  let rest =
                    reap_items-Waits items orphans w' begun'
                      (rw (enabled, listed, failed, reap_orphaned_clients) at ends) h in
                  rw (enabled, listed, failed, reap_orphaned_clients)
                    (record { kept = rest.kept ∙ same; waiting = rest.waiting })
            ]
        | inr (fault, failed) ↦
            rw (enabled, failed, reap_orphaned_clients) (record { kept = same; waiting = h })
      ]

-- On a cluster where reading revokes no token and no call turns the clock back: a pass that ends
-- within the grace period of its start, and at whose end no orphan on record will have waited for the
-- grace period, revokes no enrollment token, whatever calls fail; and no orphan on record afterwards
-- has waited that long.
pub reap_orphaned_clients_waits :
    {W : Type 0} (o : Reaper W) (resource : ClientResource W) (tokens : W → List Str)
    → ReadsOnly o resource tokens
    → (orphans : Assoc Str ℕ) (w : W) → o.clients ≡ some resource
    → let (answer, (orphans', w')) = reap_orphaned_clients o orphans w in
      o.now w' < o.now w + o.orphan_grace_period
      → All (IsWaiting o.orphan_grace_period (o.now w')) orphans
      → (tokens w' ≡ tokens w) × All (IsWaiting o.orphan_grace_period (o.now w')) orphans'
reap_orphaned_clients_waits o resource tokens reads orphans w enabled brief h =
    let finish = o.now (reap_orphaned_clients o orphans w).1.1 in
    let waits =
      pass-Waits o resource tokens reads (o.now w) finish brief orphans w refl (omega arith) enabled
        h in
    (waits.kept, waits.waiting)
