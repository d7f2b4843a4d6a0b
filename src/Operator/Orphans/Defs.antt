-- ===== src/Operator/Orphans/Defs.antt =====
-- reapOrphanedClients, claimIsAlive, reap, withoutFinalizer. The log lines are left out.
use thunder_device_plugin.Base.{
  ℕ, ◌+◌, Bool, true, false, not, ◌||◌, Option, none, some, List, [], ◌∷◌, ◌++◌, Str, ok, err,
  Fault, Call, is_not_found, gone, ◌==◌, text_eq, codes, is_nil, length, ltb, eqb, keep, lookup,
  insert, erase, Assoc, if◌then◌else◌,
}

-- A ThunderClient as the operator reads it: "" stands for a field that is missing.
pub record ClientObject : Type 0 where
  pub namespace : Str
  pub name : Str
  pub finalizers : List Str
  pub claim_namespace : Str
  pub claim_name : Str
  pub claim_uid : Str
  pub token_id : Str

-- The dynamic client for ThunderClients.
pub record ClientResource (W : Type 0) : Type 0 where
  pub list : Call W Fault (List ClientObject)
  pub update : ClientObject → W → Option Fault × W
  pub delete : Str → Str → W → Option Fault × W

-- What the operator calls: the UID of a ResourceClaim, UnenrollClient, the clock. Time is counted in
-- nanoseconds.
pub record Reaper (W : Type 0) : Type 0 where
  pub get_claim_uid : Str → Str → Call W Fault Str
  pub unenroll_client : Str → W → Option Fault × W
  pub now : W → ℕ
  pub clients : Option (ClientResource W)
  pub orphan_grace_period : ℕ

pub data ReapError : Type 0 where
  -- "list ThunderClients", "get ResourceClaim %s/%s"
  list_failed claim_failed : Fault → ReapError
  -- "revoke enrollment %s for %s", "release finalizer on %s", "delete %s"
  revoke_failed release_failed delete_failed : Str → Fault → ReapError

abbrev pub finalizer : Str
finalizer = codes "thundercompute.com/client-cleanup"

unfoldable pub without_finalizer : List Str → List Str
without_finalizer finalizers = keep (λ f. not (f == finalizer)) finalizers

unfoldable pub object_key : ClientObject → Str
object_key item = item.namespace ++ (b'/' ∷ item.name)

-- isGone: the API answers 404 or 410.
unfoldable pub is_gone : Fault → Bool
is_gone gone = true
is_gone fault = is_not_found fault

-- An error that is not one of those the code passes over.
unfoldable pub real : (Fault → Bool) → Option Fault → Option Fault
real passed none = none
real passed (some fault) = if passed fault then none else some fault

module _ {W : Type 0} (o : Reaper W) where
  unfoldable pub claim_is_alive : ClientObject → Call W ReapError Bool
  claim_is_alive item w =
      let (claim, w') = o.get_claim_uid item.claim_namespace item.claim_name w in
      if is_nil item.claim_namespace || is_nil item.claim_name then (ok true, w) else (
        elim claim [
          | err fault ↦ if is_not_found fault then ok false else err (claim_failed fault)
          | ok uid ↦ ok (is_nil item.claim_uid || uid == item.claim_uid)
        ],
        w',
      )

  -- The call of UnenrollClient, where the object has a token.
  unfoldable pub revoke : ClientObject → W → Option ReapError × W
  unfolding real is_gone
  revoke item w =
      let (answer, w') = o.unenroll_client item.token_id w in
      if is_nil item.token_id then (none, w) else (
        elim (real is_gone answer) [
          | none ↦ none
          | some fault ↦ some (revoke_failed item.token_id fault)
        ],
        w',
      )

  -- The update that drops the finalizer, where the object has it.
  unfoldable pub release : ClientResource W → ClientObject → W → Option ReapError × W
  unfolding real without_finalizer object_key
  release resource item w =
      let kept = without_finalizer item.finalizers in
      let (answer, w') = resource.update (record item { finalizers = kept }) w in
      if eqb (length kept) (length item.finalizers) then (none, w) else (
        elim (real is_not_found answer) [
          | none ↦ none
          | some fault ↦ some (release_failed (object_key item) fault)
        ],
        w',
      )

  unfoldable pub reap : ClientResource W → ClientObject → W → Option ReapError × W
  unfolding revoke release
  reap resource item w =
      let (revoked, w₁) = revoke item w in
      elim revoked [
        | some e ↦ (some e, w₁)
        | none ↦
            let (released, w₂) = release resource item w₁ in
            elim released [
              | some e ↦ (some e, w₂)
              | none ↦
                  let (answer, w₃) = resource.delete item.namespace item.name w₂ in
                  (
                    elim (real is_not_found answer) [
                      | none ↦ none
                      | some fault ↦ some (delete_failed (object_key item) fault)
                    ],
                    w₃,
                  )
            ]
      ]

  -- The body of the loop for an object whose claim is gone, with the table of orphans.
  unfoldable pub reap_when_due :
      ClientResource W → ClientObject → Assoc Str ℕ → W → Option ReapError × (Assoc Str ℕ × W)
  unfolding reap object_key
  reap_when_due resource item orphans w = elim (lookup (object_key item) orphans) [
    | none ↦ (none, (insert (object_key item) (o.now w) orphans, w))
    | some first_seen ↦
        let (answer, w') = reap resource item w in
        if ltb (o.now w) (first_seen + o.orphan_grace_period)
        then (none, (orphans, w))
        else elim answer [
          | some e ↦ (some e, (orphans, w'))
          | none ↦ (none, (erase (object_key item) orphans, w'))
        ]
  ]

  unfoldable pub reap_item :
      ClientResource W → ClientObject → Assoc Str ℕ → W → Option ReapError × (Assoc Str ℕ × W)
  unfolding claim_is_alive reap_when_due
  reap_item resource item orphans w =
      let (alive, w') = claim_is_alive item w in
      elim alive [
        | err e ↦ (some e, (orphans, w'))
        | ok lives ↦
            if lives
            then (none, (erase (object_key item) orphans, w'))
            else reap_when_due resource item orphans w'
      ]

  unfoldable pub reap_items :
      ClientResource W → List ClientObject → Assoc Str ℕ → W → Option ReapError × (Assoc Str ℕ × W)
  unfolding reap_item
  reap_items resource [] orphans w = (none, (orphans, w))
  reap_items resource (item ∷ items) orphans w =
      let (answer, state) = reap_item resource item orphans w in
      let rest = reap_items resource items state.0 state.1 in
      elim answer [ some e ↦ (some e, state) | none ↦ rest ]

  is_seen : Str → List ClientObject → Bool
  unfolding object_key
  is_seen key [] = false
  is_seen key (item ∷ items) = object_key item == key || is_seen key items

  -- The entries whose object was listed.
  unfoldable pub still_listed : List ClientObject → Assoc Str ℕ → Assoc Str ℕ
  unfolding is_seen
  still_listed items orphans = keep (λ entry. is_seen entry.0 items) orphans

  unfoldable pub reap_orphaned_clients : Assoc Str ℕ → W → Option ReapError × (Assoc Str ℕ × W)
  unfolding reap_items still_listed
  reap_orphaned_clients orphans w = elim o.clients [
    | none ↦ (none, (orphans, w))
    | some resource ↦
        let (listed, w') = resource.list w in
        elim listed [
          | err fault ↦
              (if is_not_found fault then none else some (list_failed fault), (orphans, w'))
          | ok items ↦
              let (answer, state) = reap_items resource items orphans w' in
              elim answer [
                | some e ↦ (some e, state)
                | none ↦ (none, (still_listed items state.0, state.1))
              ]
        ]
  ]
