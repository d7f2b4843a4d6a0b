-- ===== src/Operator/Inventory/Counts.antt =====
-- The counting loops over the servers and the clients of a zone, and sums by GPU type.
use thunder_device_plugin.Base.{
  ℕ, ◌+◌, ◌≡◌, ◌∙◌, ◌≢◌, not, ◌&&◌, List, [], ◌∷◌, Str, arith, ◌==◌, text_eq, str_eq_iff, lookup,
  lookup_or, lookup-insert, Assoc, if◌then◌else◌,
}
use thunder_device_plugin.Base.Int.{ℤ, pos_part}
use thunder_device_plugin.Operator.Inventory.Defs.{
  Server, RegisteredClient, normalize_gpu_type, add_gpu_count, node_healthy, count_servers,
  count_clients,
}

-- The GPUs of a type that the healthy servers hold, and that the clients which are not
-- decommissioned were given: a negative count is none.
server_gpus : Str → Server → ℕ
server_gpus gpu_type s =
    if node_healthy s.status && normalize_gpu_type s.gpu_type == gpu_type
    then pos_part s.gpu_count
    else 0

unfoldable pub total_server_gpus : Str → List Server → ℕ
unfolding server_gpus
total_server_gpus gpu_type [] = 0
total_server_gpus gpu_type (s ∷ ss) = server_gpus gpu_type s + total_server_gpus gpu_type ss

client_gpus : Str → RegisteredClient → ℕ
client_gpus gpu_type c =
    if not c.decommissioned && normalize_gpu_type c.gpu_type == gpu_type
    then pos_part c.gpu_count
    else 0

unfoldable pub total_client_gpus : Str → List RegisteredClient → ℕ
unfolding client_gpus
total_client_gpus gpu_type [] = 0
total_client_gpus gpu_type (c ∷ cs) = client_gpus gpu_type c + total_client_gpus gpu_type cs

add_gpu_count_lem :
    (counts : Assoc Str ℕ) (raw gpu_type : Str) (count : ℤ)
    → gpu_type ≢ []
    → lookup_or 0 gpu_type (add_gpu_count counts raw count)
      ≡ lookup_or 0 gpu_type counts
        + (if normalize_gpu_type raw == gpu_type then pos_part count else 0)
unfolding add_gpu_count lookup_or
add_gpu_count_lem counts raw gpu_type count named =
    let key = normalize_gpu_type raw in
    ground (
      arith,
      str_eq_iff key gpu_type,
      lookup-insert key gpu_type (lookup_or 0 key counts + pos_part count) counts,
    )

count_servers_from :
    (counts : Assoc Str ℕ) (gpu_type : Str) (servers : List Server)
    → gpu_type ≢ []
    → lookup_or 0 gpu_type (count_servers counts servers)
      ≡ lookup_or 0 gpu_type counts + total_server_gpus gpu_type servers
unfolding count_servers total_server_gpus
count_servers_from counts gpu_type [] named = ground arith
count_servers_from counts gpu_type (s ∷ ss) named =
    let counted =
      if not (node_healthy s.status) then counts else add_gpu_count counts s.gpu_type s.gpu_count in
    ground (
      arith,
      count_servers_from counted gpu_type ss named,
      add_gpu_count_lem counts s.gpu_type gpu_type s.gpu_count named,
    )

count_clients_from :
    (counts : Assoc Str ℕ) (gpu_type : Str) (clients : List RegisteredClient)
    → gpu_type ≢ []
    → lookup_or 0 gpu_type (count_clients counts clients)
      ≡ lookup_or 0 gpu_type counts + total_client_gpus gpu_type clients
unfolding count_clients total_client_gpus
count_clients_from counts gpu_type [] named = ground arith
count_clients_from counts gpu_type (c ∷ cs) named =
    let counted =
      if c.decommissioned then counts else add_gpu_count counts c.gpu_type c.gpu_count in
    ground (
      arith,
      count_clients_from counted gpu_type cs named,
      add_gpu_count_lem counts c.gpu_type gpu_type c.gpu_count named,
    )

-- What a zone counts for a GPU type that is not blank is the sum of the GPUs of that type over its healthy servers,
-- and over its clients that are not decommissioned, whatever the spelling of the type.
pub zone_counts :
    (gpu_type : Str) (servers : List Server) (clients : List RegisteredClient)
    → gpu_type ≢ []
    → (lookup_or 0 gpu_type (count_servers [] servers) ≡ total_server_gpus gpu_type servers)
      × (lookup_or 0 gpu_type (count_clients [] clients) ≡ total_client_gpus gpu_type clients)
unfolding lookup_or lookup
zone_counts gpu_type servers clients named = (
  count_servers_from [] gpu_type servers named ∙ omega arith,
  count_clients_from [] gpu_type clients named ∙ omega arith,
)
