-- ===== src/Proxy/Refinement.antt =====
-- About the accept loop and the sessions of internal/common/byteproxy/byteproxy.go: a service's slot
-- as a pool of bounded size.
use arc_remote_signer.Common.{
  ℕ, ◌+◌, ◌%◌, ◌^◌, ◌<◌, Bool, true, false, List, ◌∷◌, Option, none, some, ◌≡◌, refl,
}
use arc_remote_signer.Proxy.Pipe.{Pipe}
use arc_remote_signer.Proxy.{
  ended, released, Session, Loop, checked, Slot, SlotEvent, admit, release, finish, at,
}
use arc_remote_signer.Proxy.Slots.{sum_of, holds, IsValid}

-- What a service promises: a pool of members that come in while it is not full. `guests` also
-- counts those who have left and whose connection is not closed yet; `closed` are the connections
-- that were closed, and `turned_away` counts the newcomers that were refused, modulo 2^64.
pub record Pool : Type 0 where
  pub members : ℕ
  pub guests : ℕ
  pub turned_away : ℕ
  pub closed : List ℕ

-- A step from one pool to another. A connection is closed only when its guest has left, when the
-- pool is full, or when the proxy shuts down; and a step at which a newcomer waits to be let in, or a
-- guest to leave or to be seen off, does not rest.
pub data PoolStep (size : ℕ) (shut due : Bool) (p q : Pool) : Type 0 where
  rest :
      due ≡ false
      → q.members ≡ p.members
      → q.guests ≡ p.guests
      → q.turned_away ≡ p.turned_away
      → q.closed ≡ p.closed
      → PoolStep size shut due p q
  enter :
      p.members < size
      → q.members ≡ p.members + 1
      → q.guests ≡ p.guests + 1
      → q.turned_away ≡ p.turned_away
      → q.closed ≡ p.closed
      → PoolStep size shut due p q
  leave :
      q.members + 1 ≡ p.members
      → q.guests ≡ p.guests
      → q.turned_away ≡ p.turned_away
      → q.closed ≡ p.closed
      → PoolStep size shut due p q
  turn_away :
      (c : ℕ)
      → p.members ≡ size
      → q.members ≡ p.members
      → q.guests ≡ p.guests
      → q.turned_away ≡ (p.turned_away + 1) % 2 ^ 64
      → q.closed ≡ c ∷ p.closed
      → PoolStep size shut due p q
  see_off :
      (c : ℕ)
      → p.members < p.guests
      → q.members ≡ p.members
      → q.guests + 1 ≡ p.guests
      → q.turned_away ≡ p.turned_away
      → q.closed ≡ c ∷ p.closed
      → PoolStep size shut due p q
  refuse :
      (c : ℕ)
      → shut ≡ true
      → q.members ≡ p.members
      → q.guests ≡ p.guests
      → q.turned_away ≡ p.turned_away
      → q.closed ≡ c ∷ p.closed
      → PoolStep size shut due p q

-- The members are the sessions that have not given their slot back, whatever the channel holds.
abbrev pub pool_of : Slot → Pool
pool_of slot = record {
  members = sum_of holds slot.sessions;
  guests = sum_of (λ s. 1) slot.sessions;
  turned_away = slot.dropped;
  closed = slot.closed;
}

-- At this event somebody waits to be let in, to leave, or to be seen off.
abbrev pub due_loop : Loop → Bool
due_loop (checked c) = true
due_loop _ = false

abbrev pub leaves : Option Session → Bool
leaves none = false
leaves (some s) = elim s.stage [ ended ↦ true | _ ↦ false ]

abbrev pub has_left : Option Session → Bool
has_left none = false
has_left (some s) = elim s.stage [ released ↦ true | _ ↦ false ]

abbrev pub is_due : Slot → SlotEvent → Bool
unfolding at
is_due slot admit = due_loop slot.loop
is_due slot (release k) = leaves (at slot.sessions k)
is_due slot (finish k) = has_left (at slot.sessions k)
is_due slot _ = false

module _ (n c : ℕ) (slot : Slot) (v : IsValid n c slot) (shut : Bool) where
  abbrev Refines : Bool → Slot → Type 0
  Refines due slot' = PoolStep n shut due (pool_of slot) (pool_of slot')

  abbrev unchanged : Refines false slot
  unchanged = rest refl refl refl refl refl
