-- ===== src/DataStream.antt =====
-- The iterator of a DataStream (core/include/superflow/utils/data_stream.h), and a range-based for
-- loop with it. A stream is a parameter.
pub mod Visit
use superflow.Base.{ℕ, zero, suc, Bool, true, false, not, ◌||◌, List, [], ◌∷◌, Option, none, some}

-- `getNext()` and `operator bool` of a stream with states `S`
pub record Stream (S T : Type 0) : Type 0 where
  pub get_next : S → Option T × S
  pub alive : S → Bool

pub record Iterator (T : Type 0) : Type 0 where
  pub is_end : Bool
  pub t : Option T

abbrev pub has_value : {T : Type 0} → Option T → Bool
has_value none = false
has_value (some x) = true

module _ {S T : Type 0} (stream : Stream S T) where
  -- `operator++()`
  unfoldable pub increment : Iterator T → S → Iterator T × S
  increment it s = elim it.is_end [
    | true ↦ (it, s)
    | false ↦ (
      record { is_end = not (has_value (stream.get_next s).0); t = (stream.get_next s).0 },
      (stream.get_next s).1,
    )
  ]

  -- The constructor with two arguments
  unfoldable pub iterator : Bool → S → Iterator T × S
  unfolding increment
  iterator is_end s = increment (record { is_end = is_end; t = none }) s

  unfoldable pub begin : S → Iterator T × S
  unfolding iterator
  begin s = iterator (not (stream.alive s)) s

  unfoldable pub end : S → Iterator T × S
  unfolding iterator
  end s = iterator true s

  -- `operator==`: both refer to the stream.
  unfoldable pub equal : Iterator T → Iterator T → S → Bool
  equal a b s = elim (a.is_end || not (stream.alive s)) [
    | true ↦ b.is_end || not (stream.alive s)
    | false ↦ elim b.is_end [ true ↦ false | false ↦ stream.alive s ]
  ]

  -- The rounds of `for (x : stream)` from an iterator on, up to `fuel`: the values of `*it`, and the
  -- stream when the loop is left. `none`: the fuel ran out.
  unfoldable pub rounds : ℕ → Iterator T → Iterator T → S → Option (List (Option T) × S)
  unfolding equal increment
  rounds zero it last s = none
  rounds (suc fuel) it last s = elim (equal it last s) [
    | true ↦ some ([], s)
    | false ↦ elim (rounds fuel (increment it s).0 last (increment it s).1) [
      | none ↦ none
      | some (items, t) ↦ some (it.t ∷ items, t)
    ]
  ]

  -- The loop: `begin()` and `end()`, then the rounds
  unfoldable pub visit : ℕ → S → Option (List (Option T) × S)
  unfolding begin end rounds
  visit fuel s = rounds fuel (begin s).0 (end (begin s).1).0 (end (begin s).1).1
