-- ===== src/Nodes/Counts.antt =====
-- The counters `getSize` and `getRunning`, and how the calls change them.
use scale_out_distributed_le.Common.{
  ℕ, zero, suc, ◌+◌, ◌≤◌, ◌<◌, ◌≡◌, refl, Bool, true, false, Option, none, some, List, [], ◌∷◌,
  arith, lt→ltb, inl, inr, count_by, if◌then◌else◌,
}
use scale_out_distributed_le.Js.{Json, truthy, returns}
use scale_out_distributed_le.Nodes.{
  Node, NodeList, new_node, index_limit, slot, put, is_some, is_running, register_node,
  set_node_status, running_from, size_from, get_running, get_size, get_node,
}
use scale_out_distributed_le.Nodes.Slots.{get_node-slot, set_node_status-cases, marked}

running_from-count :
    (n : ℕ) (xs : List (Option Node)) → running_from n xs ≡ n + count_by is_running xs
unfolding running_from
running_from-count n [] = omega arith
running_from-count n (x ∷ xs) =
    ground (arith, running_from-count (n + 1) xs, running_from-count n xs)

size_from-count : (n : ℕ) (xs : List (Option Node)) → size_from n xs ≡ n + count_by is_some xs
unfolding size_from
size_from-count n [] = omega arith
size_from-count n (x ∷ xs) = ground (arith, size_from-count (n + 1) xs, size_from-count n xs)

pub get_running-count : (l : NodeList) → get_running l ≡ count_by is_running l.nodes
unfolding get_running
get_running-count l = omega (arith, running_from-count 0 l.nodes)

pub get_size-count : (l : NodeList) → get_size l ≡ count_by is_some l.nodes
unfolding get_size
get_size-count l = omega (arith, size_from-count 0 l.nodes)

running-le-size : (xs : List (Option Node)) → count_by is_running xs ≤ count_by is_some xs
running-le-size [] = omega arith
running-le-size (none ∷ xs) = omega (arith, running-le-size xs)
running-le-size (some n ∷ xs) = ground (arith, running-le-size xs)

-- Of every list, `getRunning` counts no more nodes than `getSize`.
pub get_running-le-get_size : (l : NodeList) → get_running l ≤ get_size l
get_running-le-get_size l =
    omega (arith, get_running-count l, get_size-count l, running-le-size l.nodes)

-- A write at a slot changes a count by what the slot held and what it holds.
count_by-put :
    (p : Option Node → Bool) (i : ℕ) (v : Node) (xs : List (Option Node))
    → p none ≡ false
    → count_by p (put i v xs) + (if p (slot xs i) then 1 else 0)
      ≡ count_by p xs + (if p (some v) then 1 else 0)
unfolding put slot
count_by-put p zero v [] h = ground arith
count_by-put p zero v (x ∷ xs) h = omega arith
count_by-put p (suc i) v [] h = ground (arith, count_by-put p i v [])
count_by-put p (suc i) v (x ∷ xs) h = omega (arith, count_by-put p i v xs h)

-- A registration at an array index counts a node where there was none, and replaces one
-- otherwise; the node that is replaced no longer counts as running, and the new one does not yet.
counts-register_node :
    (now : ℕ) (l : NodeList) (id : ℕ) (address port public_key : Json)
    → id < index_limit
    → let l' = (register_node now l id address port public_key).0 in
      (get_size l' ≡ (if is_some (get_node l id) then get_size l else get_size l + 1))
      × (get_running l' + (if is_running (get_node l id) then 1 else 0) ≡ get_running l)
unfolding register_node
counts-register_node now l id address port public_key h =
    let node = new_node now id address port public_key in
    let l' : NodeList = record { nodes = put id node l.nodes } in
    rw (lt→ltb _ _ h) (
      ground (
        arith,
        get_node-slot l id,
        get_size-count l,
        get_size-count l',
        get_running-count l,
        get_running-count l',
        count_by-put is_some id node l.nodes refl,
        count_by-put is_running id node l.nodes refl,
      ))

-- Where `setNodeStatus` answers true, the number of nodes stays, and the number of running nodes
-- changes by what the node was and is: it loses the old status and gains the new one.
counts-set_node_status :
    (l l' : NodeList) (id : ℕ) (running : Json)
    → set_node_status l id running ≡ returns (l', true)
    → (get_size l' ≡ get_size l)
      × (get_running l' + (if is_running (get_node l id) then 1 else 0)
          ≡ get_running l + (if truthy running then 1 else 0))
counts-set_node_status l l' id running e = elim (set_node_status-cases l l' id running true e) [
  | inl (no_change, _) ↦ cc
  | inr (node, _, found, same) ↦
      let node' : Node = record node { running = running } in
      rw same (
        ground (
          arith,
          get_node-slot l id,
          get_size-count l,
          get_size-count (marked l id running node),
          get_running-count l,
          get_running-count (marked l id running node),
          count_by-put is_some id node' l.nodes refl,
          count_by-put is_running id node' l.nodes refl,
        ))
]
