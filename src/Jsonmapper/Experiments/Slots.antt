-- ===== src/Jsonmapper/Experiments/Slots.antt =====
-- The arrays of children that `ToObjectFromJSON` of jsonmapper/experiments/mapper.go makes: one slot for
-- each child table, of which it fills one.
use dyndao.Base.{
  ℕ, zero, suc, ◌≤◌, String, Bool, true, false, Option, none, some, List, [], ◌∷◌, ◌≡◌, refl, ◌∙◌,
  ◌≢◌, eq_iff, set_elem, length, or_else, map, arith,
}
use dyndao.Base.Map.{Map, IsMap, entries, lookup, contains, lookup-insert_ne, lookup-insert_self}
use dyndao.Base.Outcome.{Outcome, ok, err, panic, is_ok, OnOk, OnOk-weaken}
use dyndao.Value.{Value, Std}
use dyndao.Schema.{Column, ChildTable, Table, Schema}
use dyndao.Object.{Object, Array, new, set, make_array}
use dyndao.Orm.{Act, proceed}
use dyndao.Jsonmapper.Experiments.{get_path_prefix}
use dyndao.Jsonmapper.Experiments.Paths.{Packages, to_json_from_object, in_child}
use dyndao.Jsonmapper.Experiments.Read.{
  list_sources, set_found, put_child, walk_children, to_object_from_json,
}
use dyndao.Jsonmapper.Experiments.NilChild.{has_nil, any_nil, to_json-any_nil}

-- One slot of several is filled.
filled-has_nil : (n i : ℕ) (x : Option ℕ) → 2 ≤ n → has_nil (set_elem (make_array n) i x) ≡ true
unfolding make_array
filled-has_nil zero i x h = absurd (omega (arith, h))
filled-has_nil (suc zero) i x h = absurd (omega (arith, h))
filled-has_nil (suc (suc n)) zero none h = refl
filled-has_nil (suc (suc n)) zero (some j) h = refl
filled-has_nil (suc (suc n)) (suc i) x h = refl

-- The key's array has an empty slot.
abbrev HasSlot : String → Object → Type 0
HasSlot k obj = (at : Array) × (lookup k obj.children ≡ some at) × (has_nil at ≡ true)

HasSlot-any_nil :
    (k : String) (children : Map Array) (at : Array)
    → lookup k children ≡ some at
    → has_nil at ≡ true
    → any_nil children ≡ true
unfolding lookup
HasSlot-any_nil k [] at e h = cc
HasSlot-any_nil k ((j, v) ∷ children) at e h = grind (arith, HasSlot-any_nil k children at, e, h)

proceed-OnOk :
    {S A B : Type 0} (Q : B → Type 0) (r : Outcome A) (f : A → Act S B) (h : S)
    → ((a : A) → r ≡ ok a → OnOk Q (f a h).0)
    → OnOk Q (proceed r f h).0
proceed-OnOk Q (ok a) f h next = next a refl
proceed-OnOk Q (err e) f h next = tt
proceed-OnOk Q (panic p) f h next = tt

-- A slot of another key's array is left alone.
put_child-HasSlot :
    (n i j : ℕ) (k key : String) (obj grown : Object)
    → put_child n i key j obj ≡ ok grown
    → key ≢ k
    → HasSlot k obj
    → HasSlot k grown
unfolding put_child
put_child-HasSlot n i j k key obj grown made apart (at, e, h) = (
  at,
  grind (
    arith,
    made,
    lookup-insert_ne key k (set_elem (or_else (make_array n) (lookup key obj.children)) i (some j))
        obj.children apart,
    e,
  ),
  h,
)

module _ (print : ChildTable → String) (read : String → Act (List Object) Object) (n : ℕ) where
  each_child :
      (Q : Object → Type 0) (tables : Map ChildTable) (i : ℕ) (k : String) (v : ChildTable)
      (obj : Object) (heap : List Object)
      → ((at : ℕ) (grown : Object) (later : List Object)
          → put_child n i k at obj ≡ ok grown
          → OnOk Q (walk_children print read n (suc i) tables grown later).0)
      → OnOk Q (walk_children print read n i ((k, v) ∷ tables) obj heap).0
  unfolding walk_children
  each_child Q tables i k v obj heap next =
      proceed-OnOk Q (in_child k (print v) (read k heap).0) _ _
        λ child e. proceed-OnOk Q (put_child n i k _ obj) _ _ λ grown made. next _ grown _ made

  walk-HasSlot :
      (tables : Map ChildTable) (i : ℕ) (k : String) (obj : Object) (heap : List Object)
      → contains k tables ≡ false
      → HasSlot k obj
      → OnOk (HasSlot k) (walk_children print read n i tables obj heap).0
  unfolding walk_children contains lookup
  walk-HasSlot [] i k obj heap apart slot = slot
  walk-HasSlot ((j, v) ∷ tables) i k obj heap apart slot =
      each_child (HasSlot k) tables i j v obj heap λ at grown later made.
        walk-HasSlot tables (suc i) k grown later (ground (arith, apart))
          (put_child-HasSlot n i at k j obj grown made (λ p. grind (arith, eq_iff j k, apart)) slot)

  -- The first of several child tables: its key gets an array in which a slot stays empty.
  first-HasSlot :
      (i at : ℕ) (k : String) (obj grown : Object)
      → 2 ≤ n
      → lookup k obj.children ≡ none
      → put_child n i k at obj ≡ ok grown
      → HasSlot k grown
  unfolding put_child
  first-HasSlot i at k obj grown several fresh made =
      let slots = or_else (make_array n) (lookup k obj.children) in
      (
        set_elem (make_array n) i (some at),
        grind (arith, made, fresh, lookup-insert_self k (set_elem slots i (some at)) obj.children),
        filled-has_nil n i (some at) several,
      )

  walk-any_nil :
      (tables : Map ChildTable) (obj : Object) (heap : List Object)
      → 2 ≤ n
      → length tables ≡ n
      → IsMap tables
      → obj.children ≡ []
      → OnOk
          (λ after. any_nil after.children ≡ true)
          (walk_children print read n 0 tables obj heap).0
  unfolding lookup
  walk-any_nil [] obj heap several counted unique bare = absurd (omega (arith, several, counted))
  walk-any_nil ((k, v) ∷ tables) obj heap several counted unique bare =
      each_child (λ after. any_nil after.children ≡ true) tables 0 k v obj heap
        λ at grown later made.
          OnOk-weaken (HasSlot k) (λ after. any_nil after.children ≡ true)
            (walk_children print read n 1 tables grown later).0
            (λ after slot. HasSlot-any_nil k after.children slot.0 slot.1 slot.2)
            (walk-HasSlot tables 1 k grown later unique.0
              (first-HasSlot 0 at k obj grown several (rw (bare, lookup) refl) made))

-- The loop over the values leaves the children alone.
set_found-children :
    (s : Std) (keys : List String) (found : List (Option Value)) (obj : Object)
    → OnOk (λ after. after.children ≡ obj.children) (set_found s keys found obj)
unfolding set_found set
set_found-children s keys [] obj = refl
set_found-children s [] (none ∷ found) obj = set_found-children s [] found obj
set_found-children s [] (some v ∷ found) obj = tt
set_found-children s (k ∷ keys) (none ∷ found) obj = set_found-children s keys found obj
set_found-children s (k ∷ keys) (some v ∷ found) obj =
    OnOk-weaken (λ after. after.children ≡ (set s k v obj).children)
      (λ after. after.children ≡ obj.children) _ (λ after e. e ∙ ground arith)
      (set_found-children s keys found (set s k v obj))

module _ (s : Std) (go : Packages) (source : Column → String) (sch : Schema) where
  -- Writing the object ends in an error or a panic.
  abbrev pub Unwritten : ℕ → List Object → String → String → Bool → Object → Type 0
  Unwritten g heap root_json root_path set_root obj =
      is_ok (to_json_from_object go source sch g heap obj root_json root_path set_root) ≡ false

  -- What `ToObjectFromJSON` makes for a table with two or more child tables, `ToJSONFromObject` does not
  -- write: in the array of each child table all slots but one are nil. This holds for every text that
  -- is read, in any place of it, and every place that it is written to.
  pub siblings_not_written :
      (f g : ℕ) (consumed_path tbl json root_json root_path : String) (set_root : Bool)
      (table : Table) (heap heap' : List Object)
      → lookup tbl sch.tables ≡ some table
      → IsMap table.children
      → 2 ≤ length table.children
      → OnOk
          (Unwritten g heap' root_json root_path set_root)
          (to_object_from_json s go source sch f consumed_path tbl json heap).0
  unfolding to_object_from_json
  siblings_not_written zero g consumed_path tbl json root_json root_path set_root table heap heap'
        here unique several =
      tt
  siblings_not_written (suc f) g consumed_path tbl json root_json root_path set_root table heap
        heap' here unique several =
      rw (to_object_from_json, here)
        (proceed-OnOk (Unwritten g heap' root_json root_path set_root)
          (list_sources source (get_path_prefix consumed_path tbl) (entries table.columns)) _ heap
          λ found e.
            let keys = map (λ e. e.0) found in
            let values = go.get_many json (map (λ e. e.1) found) in
            proceed-OnOk (Unwritten g heap' root_json root_path set_root)
              (set_found s keys values (new tbl)) _ heap
              λ obj made.
                let bare : obj.children ≡ (new tbl).children =
                  rw made at (set_found-children s keys values (new tbl)) in
                OnOk-weaken (λ after. any_nil after.children ≡ true)
                  (Unwritten g heap' root_json root_path set_root) _
                  (λ after.
                    to_json-any_nil go source sch g heap' after root_json root_path set_root)
                  (walk-any_nil go.print_child_table
                    (λ k. to_object_from_json s go source sch f tbl k json) (length table.children)
                    table.children obj heap several refl unique (bare ∙ unfold new in refl)))
