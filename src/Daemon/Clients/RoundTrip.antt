-- ===== src/Daemon/Clients/RoundTrip.antt =====
-- thunderClientObject and thunderClientFromObject, the one after the other.
use thunder_device_plugin.Base.{
  ℕ, ◌*◌, ◌/◌, ◌∙◌, ◌≡◌, ◌≢◌, refl, ◌⊎◌, inl, inr, true, false, not, ◌||◌, some, [], ◌∷◌, Str,
  codes, is_nil, lookup, insert, text_eq, str_eq, Option-cases,
}
use thunder_device_plugin.Daemon.Driver.{ThunderClient, no_consumer}
use thunder_device_plugin.Daemon.Clients.Object.{
  Clock, thunder_client_object, thunder_client_from_object,
}

-- A client that the store can keep: a share that is set is not empty, and a consumer with neither a
-- name nor a UID has nothing else.
pub record IsStorable (client : ThunderClient) : Type 0 where
  pub has_share : client.share_id ≢ some []
  pub has_consumer :
      ((not (is_nil client.consumer.name) || not (is_nil client.consumer.uid)) ≡ true)
      ⊎ (client.consumer ≡ no_consumer)

share_shown : (share : Str) → some share ≢ some [] → is_nil share ≡ false
share_shown [] h = absurd (h refl)
share_shown (c ∷ share) h = refl

-- A time in nanoseconds cut to whole seconds, as time.RFC3339 prints it.
unfoldable pub whole_seconds : ℕ → ℕ
whole_seconds t = t / 1000000000 * 1000000000

-- A client with its times cut to whole seconds.
unfoldable pub in_seconds : ThunderClient → ThunderClient
in_seconds client = record client {
  created_at = whole_seconds client.created_at;
  updated_at = whole_seconds client.updated_at;
}

-- A client whose times are of whole seconds.
pub record HasWholeSeconds (client : ThunderClient) : Type 0 where
  pub created_whole : whole_seconds client.created_at ≡ client.created_at
  pub updated_whole : whole_seconds client.updated_at ≡ client.updated_at

module _ (clock : Clock) (parse-format : (t : ℕ) → clock.parse (clock.format t) ≡ whole_seconds t)
    (format_shown : (t : ℕ) → is_nil (clock.format t) ≡ false) where
  -- A client that is written and read has its times cut to whole seconds.
  pub object_in_seconds :
      (client : ThunderClient) (namespace : Str)
      → IsStorable client
      → thunder_client_from_object clock (thunder_client_object clock client namespace)
        ≡ in_seconds client
  unfolding thunder_client_from_object thunder_client_object in_seconds lookup insert str_eq codes
  object_in_seconds client namespace storable =
      let created = parse-format client.created_at in
      let updated = parse-format client.updated_at in
      let shown = format_shown client.created_at in
      let shown' = format_shown client.updated_at in
      elim storable.has_consumer [
        | inl named ↦ elim (Option-cases client.share_id) [
          | inl unshared ↦ rw (named, unshared, shown, shown', created, updated) refl
          | inr (share, shared) ↦
              rw
                (
                  named,
                  shared,
                  share_shown share (rw shared at storable.has_share),
                  shown,
                  shown',
                  created,
                  updated,
                )
                refl
        ]
        | inr nobody ↦ elim (Option-cases client.share_id) [
          | inl unshared ↦ rw (nobody, unshared, shown, shown', created, updated) refl
          | inr (share, shared) ↦
              rw
                (
                  nobody,
                  shared,
                  share_shown share (rw shared at storable.has_share),
                  shown,
                  shown',
                  created,
                  updated,
                )
                refl
        ]
      ]

  -- thunderClientFromObject undoes thunderClientObject, for times of whole seconds, where times are
  -- printed and read back to the second, and a client that the store can keep.
  pub thunder_client_from_object-thunder_client_object :
      (client : ThunderClient) (namespace : Str)
      → IsStorable client
      → HasWholeSeconds client
      → thunder_client_from_object clock (thunder_client_object clock client namespace) ≡ client
  unfolding in_seconds
  thunder_client_from_object-thunder_client_object client namespace storable whole =
      object_in_seconds client namespace storable
      ∙ rw (whole.created_whole, whole.updated_whole) refl
