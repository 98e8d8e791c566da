-- ===== src/Object/Tracking.antt =====
-- What `Set` and `SetWhereNeeded` of object/object.go record of an object's changes.
use dyndao.Base.{
  String, ◌≡◌, refl, ◌∙◌, inl, inr, Bool-cases, ltb, length, Bool, true, false, not, ◌&&◌, Option,
  none, some, ◌⊎◌, Option-cases, List, [], ◌∷◌, arith, ◌==◌, eq_iff, if◌then◌else◌,
}
use dyndao.Base.Map.{Map, lookup, contains, lookup-insert}
use dyndao.Value.{Value, Std, same, is_nil}
use dyndao.Object.{Object, new, get, set, set_where_needed}

-- A redundant `Set`: the key holds an equal value already.
abbrev pub redundant : Std → String → Value → Object → Bool
redundant s k v o = not (is_nil (get k o)) && same s (get k o) v

-- After `Set(k, v)` every key reads as before, but for `k` unless the `Set` was redundant.
pub get-set :
    (s : Std) (k j : String) (v : Value) (o : Object)
    → get j (set s k v o) ≡ (if (k == j) && not (redundant s k v o) then v else get j o)
unfolding get set
get-set s k j v o = ground (arith, eq_iff k j, lookup-insert k j v o.kv)

-- The change history after `Set(k, v)`: the value that `k` had just before, if it had one and the
-- `Set` was not redundant; all other entries stay.
pub changed-set :
    (s : Std) (k j : String) (v : Value) (o : Object)
    → lookup j (set s k v o).changed_columns ≡ (
        if (k == j) && (not (is_nil (get k o)) && not (same s (get k o) v))
        then some (get k o)
        else lookup j o.changed_columns)
unfolding get set
changed-set s k j v o = ground (arith, eq_iff k j, lookup-insert k j (get k o) o.changed_columns)

-- A changed column is a key of the object, and a clean object has none.
pub record IsTracked (o : Object) : Type 0 where
  pub stored : (k : String) → contains k o.changed_columns ≡ true → contains k o.kv ≡ true
  pub marked : o.dirty ≡ false → o.changed_columns ≡ []

pub new-IsTracked : (t : String) → IsTracked (new t)
unfolding new lookup contains
new-IsTracked t = record { stored = λ k h. cc; marked = λ h. refl }

pub set-IsTracked :
    (s : Std) (k : String) (v : Value) (o : Object) → IsTracked o → IsTracked (set s k v o)
unfolding get set contains
set-IsTracked s k v o h = record {
  stored = λ j p. ground (
    arith,
    eq_iff k j,
    lookup-insert k j v o.kv,
    lookup-insert k j (get k o) o.changed_columns,
    h.stored j,
  );
  marked = λ p. ground (arith, h.marked);
}

pub set_where_needed-IsTracked :
    (s : Std) (k : String) (v : Value) (o : Object)
    → IsTracked o
    → IsTracked (set_where_needed s k v o)
unfolding set_where_needed
set_where_needed-IsTracked s k v o h = elim (Bool-cases (ltb 0 (length o.changed_columns))) [
  | inl changed ↦ rw changed (set-IsTracked s k v o h)
  | inr fresh ↦ record {
    stored =
        λ j p. unfold contains in ground (arith, eq_iff k j, lookup-insert k j v o.kv, h.stored j);
    marked = λ p. ground (arith, h.marked);
  }
]

-- The edits that a client makes between a load and a save.
pub data Edit : Type 0 where
  assign assign_where_needed : String → Value → Edit

unfoldable pub apply : Std → Edit → Object → Object
apply s (assign k v) o = set s k v o
apply s (assign_where_needed k v) o = set_where_needed s k v o

unfoldable pub apply_all : Std → List Edit → Object → Object
unfolding apply
apply_all s [] o = o
apply_all s (e ∷ es) o = apply_all s es (apply s e o)

apply-IsTracked : (s : Std) (e : Edit) (o : Object) → IsTracked o → IsTracked (apply s e o)
unfolding apply
apply-IsTracked s (assign k v) o h = set-IsTracked s k v o h
apply-IsTracked s (assign_where_needed k v) o h = set_where_needed-IsTracked s k v o h

-- Whatever edits are made to a tracked object, its changed columns are keys that it has, and it
-- is clean only if no column is recorded as changed.
pub apply_all-IsTracked :
    (s : Std) (es : List Edit) (o : Object) → IsTracked o → IsTracked (apply_all s es o)
unfolding apply_all
apply_all-IsTracked s [] o h = h
apply_all-IsTracked s (e ∷ es) o h =
    apply_all-IsTracked s es (apply s e o) (apply-IsTracked s e o h)

apply-dirty : (s : Std) (e : Edit) (o : Object) → o.dirty ≡ true → (apply s e o).dirty ≡ true
unfolding apply set_where_needed
apply-dirty s (assign k v) o h = ground arith
apply-dirty s (assign_where_needed k v) o h = ground arith

apply_all-dirty :
    (s : Std) (es : List Edit) (o : Object) → o.dirty ≡ true → (apply_all s es o).dirty ≡ true
unfolding apply_all
apply_all-dirty s [] o h = h
apply_all-dirty s (e ∷ es) o h = apply_all-dirty s es (apply s e o) (apply-dirty s e o h)

apply_clean : (s : Std) (e : Edit) (o : Object) → (apply s e o).dirty ≡ false → apply s e o ≡ o
unfolding apply set_where_needed
apply_clean s (assign k v) o h = ground arith
apply_clean s (assign_where_needed k v) o h = ground arith

abbrev pub sets : Map Value → List Edit
sets [] = []
sets ((k, v) ∷ m) = assign k v ∷ sets m

-- The last value that the Sets give a key
abbrev pub last_set : String → Map Value → Option Value
last_set k [] = none
last_set k ((j, v) ∷ m) = elim (last_set k m) [
  | some w ↦ some w
  | none ↦ if j == k then some v else none
]

-- What a key reads afterwards: the value that was set, or one that Go's `==` takes for equal, or what
-- it read before
abbrev pub Reads : Std → Value → Option Value → Value → Type 0
Reads s before none after = after ≡ before
Reads s before (some v) after = (after ≡ v) ⊎ (same s after v ≡ true)

one_set-Reads :
    (s : Std) (k j : String) (v : Value) (o : Object)
    → Reads s (get k o) (if j == k then some v else none) (get k (set s j v o))
one_set-Reads s k j v o = grind (arith, get-set s j k v o, eq_iff j k)

sets-Reads :
    (s : Std) (m : Map Value) (k : String) (o : Object)
    → Reads s (get k o) (last_set k m) (get k (apply_all s (sets m) o))
unfolding apply_all apply
sets-Reads s [] k o = refl
sets-Reads s ((j, v) ∷ m) k o = elim (Option-cases (last_set k m)) [
  | inl none_left ↦
      grind (arith, none_left, one_set-Reads s k j v o, sets-Reads s m k (set s j v o))
  | inr (w, later) ↦ rw (later, last_set) (rw later at (sets-Reads s m k (set s j v o)))
]

apply_all_clean :
    (s : Std) (es : List Edit) (o : Object)
    → (apply_all s es o).dirty ≡ false
    → apply_all s es o ≡ o
unfolding apply_all
apply_all_clean s [] o h = refl
apply_all_clean s (e ∷ es) o h = elim (Bool-cases (apply s e o).dirty) [
  | inl marked ↦ cc (apply_all-dirty s es (apply s e o) marked)
  | inr clean ↦ apply_all_clean s es (apply s e o) h ∙ apply_clean s e o clean
]

-- After any Sets of keys and values, every key that was set reads the value that was set to it last, or
-- one that is equal to it in Go, and every other key reads as before; and the object is dirty, or it
-- is just what it was before the Sets.
pub sets_are_kept :
    (s : Std) (m : Map Value) (k : String) (o : Object)
    → let after = apply_all s (sets m) o in
      Reads s (get k o) (last_set k m) (get k after) × ((after.dirty ≡ true) ⊎ (after ≡ o))
sets_are_kept s m k o = (
  sets-Reads s m k o,
  elim (Bool-cases (apply_all s (sets m) o).dirty) [
    | inl dirty ↦ inl dirty
    | inr clean ↦ inr (apply_all_clean s (sets m) o clean)
  ],
)

-- On a clean object with no recorded change, `SetWhereNeeded` writes nothing.
pub set_where_needed_drops :
    (s : Std) (k : String) (v : Value) (o : Object)
    → o.dirty ≡ false
    → o.changed_columns ≡ []
    → set_where_needed s k v o ≡ o
unfolding set_where_needed
set_where_needed_drops s k v o clean none_changed = ground arith
