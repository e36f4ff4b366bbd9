-- ===== src/Collector/Table.antt =====
-- src/collector_server.c: the hash table of the processes' usage, and its filling from the eBPF maps.
use rdma_intercept_ldperload.Base.{
  ℕ, ◌%◌, ◌≡◌, refl, ap, ◌∙◌, Bool, true, false, Option, none, some, List, [], ◌∷◌, ◌==◌,
  if◌then◌else◌, get_or, set, length, length-set, get_or-set, arith,
}
use rdma_intercept_ldperload.Shm.{ResourceUsage, zero_usage}
use rdma_intercept_ldperload.Collector.{ProcessNode, Collector, Monitor, buckets}

abbrev pub holds : ℕ → List ProcessNode → Bool
holds pid [] = false
holds pid (node ∷ chain) = if node.pid == pid then true else holds pid chain

-- The first node of the process takes the usage.
abbrev pub overwrite : ℕ → ResourceUsage → List ProcessNode → List ProcessNode
overwrite pid usage [] = []
overwrite pid usage (node ∷ chain) =
    if node.pid == pid
    then record node { usage = usage } ∷ chain
    else node ∷ overwrite pid usage chain

-- One entry of the map: an existing node is overwritten, else a new one goes to the front. `malloc`
-- is taken to succeed.
unfoldable pub put_node : ℕ → ResourceUsage → List ProcessNode → List ProcessNode
put_node pid usage chain =
    if holds pid chain
    then overwrite pid usage chain
    else record { pid = pid; usage = usage } ∷ chain

unfoldable pub put_process : ℕ × ResourceUsage → List (List ProcessNode) → List (List ProcessNode)
unfolding put_node
put_process (pid, usage) table =
    set table (pid % buckets) (put_node pid usage (get_or table (pid % buckets) []))

unfoldable pub put_all :
    List (ℕ × ResourceUsage) → List (List ProcessNode) → List (List ProcessNode)
put_all [] table = table
put_all (entry ∷ entries) table = put_all entries (put_process entry table)

unfoldable pub sync_ebpf_data : Monitor → Collector → Collector
sync_ebpf_data m c =
    let filled = record c {
      process_resources = elim m.processes [
        | none ↦ c.process_resources
        | some entries ↦ put_all entries c.process_resources
      ];
    } in
    elim m.global [
      | none ↦ filled
      | some u ↦ record filled {
        global_qp_count = u.qp_count;
        global_mr_count = u.mr_count;
        global_memory_used = u.memory_used;
      }
    ]

unfoldable pub find_node : ℕ → List ProcessNode → ResourceUsage
find_node pid [] = zero_usage
find_node pid (node ∷ chain) = if node.pid == pid then node.usage else find_node pid chain

-- It returns 0 always; a process without a node has used nothing.
unfoldable pub get_process_resource_usage : ℕ → List (List ProcessNode) → ResourceUsage
unfolding find_node
get_process_resource_usage pid table = find_node pid (get_or table (pid % buckets) [])

find_node-overwrite :
    (pid q : ℕ) (u : ResourceUsage) (chain : List ProcessNode)
    → holds pid chain ≡ true
    → find_node q (overwrite pid u chain) ≡ (if q == pid then u else find_node q chain)
unfolding find_node
find_node-overwrite pid q u [] h = cc
find_node-overwrite pid q u (node ∷ chain) h = ground (arith, find_node-overwrite pid q u chain)

find_node-put_node :
    (pid q : ℕ) (u : ResourceUsage) (chain : List ProcessNode)
    → find_node q (put_node pid u chain) ≡ (if q == pid then u else find_node q chain)
unfolding find_node put_node
find_node-put_node pid q u chain = ground (arith, find_node-overwrite pid q u chain)

-- Reading after one entry: its process has the new usage, and no other process's changes, those of
-- the same bucket included.
pub get-put_process :
    (pid q : ℕ) (u : ResourceUsage) (table : List (List ProcessNode))
    → length table ≡ buckets
    → get_process_resource_usage q (put_process (pid, u) table)
      ≡ (if q == pid then u else get_process_resource_usage q table)
unfolding get_process_resource_usage put_process
get-put_process pid q u table whole =
    let chain = get_or table (pid % buckets) [] in
    ground (
      arith,
      get_or-set table (pid % buckets) (q % buckets) (put_node pid u chain) [],
      find_node-put_node pid q u chain,
    )

-- What the last entry of a process says, else the first value.
abbrev pub last_entry : ℕ → List (ℕ × ResourceUsage) → ResourceUsage → ResourceUsage
last_entry q [] u = u
last_entry q ((pid, v) ∷ entries) u = last_entry q entries (if q == pid then v else u)

length-put_all :
    (entries : List (ℕ × ResourceUsage)) (table : List (List ProcessNode))
    → length (put_all entries table) ≡ length table
unfolding put_all put_process
length-put_all [] table = refl
length-put_all ((pid, u) ∷ entries) table =
    length-put_all entries (put_process (pid, u) table) ∙ length-set table (pid % buckets) _

get-put_all :
    (entries : List (ℕ × ResourceUsage)) (q : ℕ) (table : List (List ProcessNode))
    → length table ≡ buckets
    → get_process_resource_usage q (put_all entries table)
      ≡ last_entry q entries (get_process_resource_usage q table)
unfolding put_all put_process
get-put_all [] q table whole = refl
get-put_all ((pid, u) ∷ entries) q table whole =
    get-put_all entries q (put_process (pid, u) table) (length-set table (pid % buckets) _ ∙ whole)
    ∙ ap (last_entry q entries) (get-put_process pid q u table whole)

-- After the eBPF maps are read in, every process's usage is what its last entry in them says, and
-- that of a process without an entry is what it was; the table keeps its buckets.
pub sync-get_process_resource_usage :
    (entries : List (ℕ × ResourceUsage)) (global : Option ResourceUsage) (q : ℕ) (c : Collector)
    → length c.process_resources ≡ buckets
    → let c' = sync_ebpf_data (record { processes = some entries; global = global }) c in
      (get_process_resource_usage q c'.process_resources
        ≡ last_entry q entries (get_process_resource_usage q c.process_resources))
      × (length c'.process_resources ≡ buckets)
unfolding sync_ebpf_data
sync-get_process_resource_usage entries global q c whole =
    let lookup = get-put_all entries q c.process_resources whole in
    let long = length-put_all entries c.process_resources ∙ whole in
    (ground (arith, lookup), ground (arith, long))
