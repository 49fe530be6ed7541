-- ===== src/DataStream/Visit.antt =====
-- What a range-based for loop over a DataStream visits (core/include/superflow/utils/data_stream.h).
use superflow.Base.{
  ℕ, zero, suc, ◌<◌, ◌≡◌, refl, true, false, not, List, [], ◌∷◌, map, length, Option, none, some,
  arith,
}
use superflow.DataStream.{
  equal, iterator, begin, end, has_value, Stream, Iterator, increment, rounds, visit,
}

module _ {S T : Type 0} (stream : Stream S T) where
  -- The values that `get_next` gives from a state on, each while the stream is still alive behind it,
  -- and the state at the end. The stream ends with no value, or with one behind which it is not alive.
  pub data Yields : S → List T → S → Type 0 where
    exhausted : {s t : S} → stream.get_next s ≡ (none, t) → Yields s [] t
    cut :
        {s t : S} (x : T) → stream.get_next s ≡ (some x, t) → stream.alive t ≡ false → Yields s [] t
    item :
        {s t u : S} (x : T) (xs : List T)
        → stream.get_next s ≡ (some x, t)
        → stream.alive t ≡ true
        → Yields t xs u
        → Yields s (x ∷ xs) u

  abbrev last : Iterator T
  last = record { is_end = true; t = none }

  -- `++it` of an iterator that is not at the end
  incremented :
      (it : Iterator T) (s t : S) (o : Option T)
      → it.is_end ≡ false
      → stream.get_next s ≡ (o, t)
      → increment stream it s ≡ (record { is_end = not (has_value o); t = o }, t)
  unfolding increment
  incremented it s t o e g = rw (e, g) refl

  stops :
      (fuel : ℕ) (it : Iterator T) (s : S)
      → equal stream it last s ≡ true
      → rounds stream (suc fuel) it last s ≡ some ([], s)
  unfolding rounds
  stops fuel it s h = ground arith

  goes :
      (fuel : ℕ) (it : Iterator T) (s : S) {items : List (Option T)} {u : S}
      → equal stream it last s ≡ false
      → rounds stream fuel (increment stream it s).0 last (increment stream it s).1
        ≡ some (items, u)
      → rounds stream (suc fuel) it last s ≡ some (it.t ∷ items, u)
  unfolding rounds
  goes fuel it s h r = ground arith

  rounds_lem :
      (fuel : ℕ) (it : Iterator T) {s u : S} {xs : List T}
      → it.is_end ≡ false
      → Yields s xs u
      → length xs < fuel
      → rounds stream fuel (increment stream it s).0 last (increment stream it s).1
        ≡ some (map some xs, u)
  unfolding rounds equal
  rounds_lem zero it e y h = absurd (omega arith)
  rounds_lem (suc fuel) it {s} e (exhausted {t = t} g) h = rw (incremented it s t none e g) refl
  rounds_lem (suc fuel) it {s} e (cut {t = t} x g d) h =
      rw (incremented it s t (some x) e g)
        (stops fuel (record { is_end = false; t = some x }) t (ground arith))
  rounds_lem (suc fuel) it {s} e (item {t = t} x xs g d y) h =
      rw (incremented it s t (some x) e g) (
        goes fuel (record { is_end = false; t = some x }) t (ground arith)
          (rounds_lem fuel (record { is_end = false; t = some x }) refl y (omega arith)))

  -- The loop over a stream that is alive and yields finitely many values ends, after as many rounds:
  -- it visits exactly these, in order. A value behind which the stream is no longer alive is taken
  -- from the stream and not visited.
  pub visit_lem :
      (fuel : ℕ) (s u : S) (xs : List T)
      → length xs < fuel
      → stream.alive s ≡ true
      → Yields s xs u
      → visit stream fuel s ≡ some (map some xs, u)
  unfolding visit begin end iterator increment
  visit_lem fuel s u xs h a y =
      rw a (rounds_lem fuel (record { is_end = false; t = none }) refl y h)
