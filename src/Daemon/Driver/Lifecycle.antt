-- ===== src/Daemon/Driver/Lifecycle.antt =====
-- prepareOne after prepareOne, and unprepareOne after prepareOne.
use thunder_device_plugin.Base.{ℕ, ◌≡◌, sym, ◌∙◌, none, List, Str, ok, arith, some_injective}
use thunder_device_plugin.Daemon.Driver.Types.{PreparedDevice, Allocation, ThunderClient, Stores}
use thunder_device_plugin.Daemon.Driver.Claims.{classify, prepare_allocation}
use thunder_device_plugin.Daemon.Driver.Accounts.{Accounts}
use thunder_device_plugin.Daemon.Driver.Tokens.{Accounted, prepare_allocation-Accounted}

module _ {W : Type 0} {clock : W → ℕ × W} {s : Stores W} (acc : Accounts clock s)
    (revokes : (id : Str) (w : W) → (s.tokens.revoke id w).0 ≡ none) where
  again :
      (a : Allocation) (before : List Str) (w₁ : W) (devices : List PreparedDevice)
      (c : ThunderClient)
      → Accounted acc a before (ok devices, w₁)
      → (s.clients.get a.claim_uid w₁).0 ≡ ok c
      → prepare_allocation clock s a.claim_uid a w₁ ≡ (ok devices, (s.clients.get a.claim_uid w₁).1)
  unfolding prepare_allocation classify
  again a before w₁ devices c (c', recorded, shape, device, token, _) read =
      let same : c' ≡ c = some_injective (sym recorded ∙ acc.get_ok a.claim_uid w₁ c read) in
      ground (arith, same, read, shape, device, token)

  -- Where the stores keep the Accounts laws, no revocation of a token fails and the claim's record can
  -- be read, a second call for a claim that was prepared gives the same devices and does nothing but
  -- read the record: no token is minted, no file or Secret is written.
  pub prepare_allocation_again :
      (a : Allocation) (w w₁ : W) (devices : List PreparedDevice) (c : ThunderClient)
      → prepare_allocation clock s a.claim_uid a w ≡ (ok devices, w₁)
      → (s.clients.get a.claim_uid w₁).0 ≡ ok c
      → prepare_allocation clock s a.claim_uid a w₁ ≡ (ok devices, (s.clients.get a.claim_uid w₁).1)
  prepare_allocation_again a w w₁ devices c first read =
      again a (acc.live w) w₁ devices c (rw first at (prepare_allocation-Accounted acc revokes a w))
        read
