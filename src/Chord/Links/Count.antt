-- ===== src/Chord/Links/Count.antt =====
-- How many fingers name an endpoint, before and after one finger changes.
use nreduce.Base.{◌<◌, ℕ, zero, suc, ◌+◌, ◌-◌, ◌≤◌, ◌<◌, ◌≡◌, refl, arith}
use nreduce.Endpoint.{EndpointId}
use nreduce.Chord.Types.{ChordNode, chordnode_isnull, null_node, update, mbits}
use nreduce.Chord.Table.{instance_of, count_from, count_instances}

count_from-update_below :
    (f : ℕ → ChordNode) (e : EndpointId) (i n k : ℕ) (cn : ChordNode)
    → k < i
    → count_from (update f k cn) e i n ≡ count_from f e i n
unfolding count_from
count_from-update_below f e i zero k cn h = refl
count_from-update_below f e i (suc n) k cn h =
    ground (arith, count_from-update_below f e (suc i) n k cn)

count_from-update :
    (f : ℕ → ChordNode) (e : EndpointId) (i n k : ℕ) (cn : ChordNode)
    → i ≤ k
    → k < i + n
    → count_from (update f k cn) e i n + instance_of (f k) e ≡ count_from f e i n + instance_of cn e
unfolding count_from
count_from-update f e i zero k cn h g = absurd (omega arith)
count_from-update f e i (suc n) k cn h g =
    ground (arith, count_from-update f e (suc i) n k cn, count_from-update_below f e (suc i) n k cn)

count_from-update_above :
    (f : ℕ → ChordNode) (e : EndpointId) (i n k : ℕ) (cn : ChordNode)
    → i + n ≤ k
    → count_from (update f k cn) e i n ≡ count_from f e i n
unfolding count_from
count_from-update_above f e i zero k cn h = refl
count_from-update_above f e i (suc n) k cn h =
    ground (arith, count_from-update_above f e (suc i) n k cn)

-- Of the fingers that are counted, one gives up its endpoint and takes another.
pub count_instances-update :
    (f : ℕ → ChordNode) (e : EndpointId) (k : ℕ) (cn : ChordNode)
    → 1 ≤ k
    → k < mbits
    → count_instances (update f k cn) e + instance_of (f k) e
      ≡ count_instances f e + instance_of cn e
unfolding count_instances
count_instances-update f e k cn h g = count_from-update f e 1 (mbits - 1) k cn h (omega arith)

-- The last finger is not counted.
pub count_instances-update_last :
    (f : ℕ → ChordNode) (e : EndpointId) (k : ℕ) (cn : ChordNode)
    → mbits ≤ k
    → count_instances (update f k cn) e ≡ count_instances f e
unfolding count_instances
count_instances-update_last f e k cn h =
    count_from-update_above f e 1 (mbits - 1) k cn (omega arith)

-- An endpoint that a counted finger names is counted.
pub instance-le-count :
    (f : ℕ → ChordNode) (e : EndpointId) (k : ℕ)
    → 1 ≤ k
    → k < mbits
    → instance_of (f k) e ≤ count_instances f e
unfolding chordnode_isnull
instance-le-count f e k h g = omega (arith, count_instances-update f e k null_node h g)

-- If no counted finger names the endpoint, the count is zero.
count_from-eq-zero :
    (f : ℕ → ChordNode) (e : EndpointId) (i n : ℕ)
    → ((j : ℕ) → i ≤ j → j < i + n → instance_of (f j) e ≡ 0)
    → count_from f e i n ≡ 0
unfolding count_from
count_from-eq-zero f e i zero h = refl
count_from-eq-zero f e i (suc n) h = omega (
  arith,
  h i (omega arith) (omega arith),
  count_from-eq-zero f e (suc i) n (λ j l u. h j (omega arith) (omega arith)),
)

pub count_instances-eq-zero :
    (f : ℕ → ChordNode) (e : EndpointId)
    → ((j : ℕ) → 1 ≤ j → j < mbits → instance_of (f j) e ≡ 0)
    → count_instances f e ≡ 0
unfolding count_instances
count_instances-eq-zero f e h = count_from-eq-zero f e 1 (mbits - 1) (λ j l u. h j l (omega arith))
