-- ===== src/Chord/Interval.antt =====
-- The interval tests of chord.c on the ring of identifiers, and the distance that they compare.
use nreduce.Base.{
  ℕ, ◌+◌, ◌-◌, ◌%◌, ◌<◌, ◌≤◌, Bool, ◌&&◌, ◌||◌, ◌≡◌, ltb, leb, if◌then◌else◌, arith, true, ◌↔◌,
}
use nreduce.Chord.Types.{keyspace}

unfoldable pub inrange_open : ℕ → ℕ → ℕ → Bool
inrange_open val min max =
    if ltb min max then ltb min val && ltb val max else (ltb min val || ltb val max)

unfoldable pub inrange_open_closed : ℕ → ℕ → ℕ → Bool
inrange_open_closed val min max =
    if ltb min max then ltb min val && leb val max else (ltb min val || leb val max)

-- Steps from `a` forward to `b` on the ring, at least one: from `a` to itself it is a whole turn.
abbrev pub clockwise : ℕ → ℕ → ℕ
clockwise a b = (b + 255 - a) % keyspace + 1

-- On identifiers of the key space, the tests compare distances from `min`.
pub inrange_open-clockwise :
    (val min max : ℕ)
    → val < keyspace
    → min < keyspace
    → max < keyspace
    → inrange_open val min max ≡ ltb (clockwise min val) (clockwise min max)
unfolding inrange_open
inrange_open-clockwise val min max hv hn hx = ground arith

pub inrange_open_closed-clockwise :
    (val min max : ℕ)
    → val < keyspace
    → min < keyspace
    → max < keyspace
    → inrange_open_closed val min max ≡ leb (clockwise min val) (clockwise min max)
unfolding inrange_open_closed
inrange_open_closed-clockwise val min max hv hn hx = ground arith

-- An identifier beyond the key space lies in an arc only if that arc wraps past zero.
pub inrange_open_closed-beyond :
    (val min max : ℕ)
    → keyspace ≤ val
    → min < keyspace
    → max < keyspace
    → (inrange_open_closed val min max ≡ true) ↔ (max ≤ min)
unfolding inrange_open_closed
inrange_open_closed-beyond val min max hv hn hx = ground arith
